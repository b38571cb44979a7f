-- ===== src/TmuxServer.antt =====
-- src/service_orchestrator/modules/orchestrate/tmux_server.py: the environment of the server.
use winter_service_tmux.Prelude.{
  ◌≡◌, refl, inl, inr, Bool, true, false, not, ◌&&◌, ◌||◌, none, some, List, [], ◌∷◌, map,
  if◌then◌else◌, Bool-cases, Option-cases, ◌==◌, ==_iff, nat_eq, Text, text_eq, text_beq, contains,
  filter, All,
}
use winter_service_tmux.Prelude.Dict.{Dict, lookup, insert, update}
use winter_service_tmux.Prelude.Str.{codes, starts_with}

abbrev pub baseline_path : Text
baseline_path =
    codes "/opt/homebrew/bin:/opt/homebrew/sbin:/usr/local/bin:/usr/bin:/bin:/usr/sbin:/sbin"

abbrev pub passthrough : List Text
passthrough =
    map (λ s. codes s)
      ("HOME" ∷ "USER" ∷ "LOGNAME" ∷ "SHELL" ∷ "TERM" ∷ "LANG" ∷ "TMPDIR" ∷ "TMUX_TMPDIR"
        ∷ "XDG_RUNTIME_DIR" ∷ "SSH_AUTH_SOCK" ∷ "SSH_AGENT_PID" ∷ "SSH_ASKPASS" ∷ "KRB5CCNAME"
        ∷ "DISPLAY" ∷ "XAUTHORITY" ∷ "WAYLAND_DISPLAY" ∷ "DBUS_SESSION_BUS_ADDRESS"
        ∷ "__CF_USER_TEXT_ENCODING" ∷ [])

unfoldable pub passed : List Text → Dict Text Text → Dict Text Text
passed [] source = []
passed (name ∷ names) source =
    let more = passed names source in
    elim (lookup name source) [ none ↦ more | some value ↦ (name, value) ∷ more ]

abbrev pub is_locale : Text → Bool
is_locale name = starts_with name (codes "LC_")

unfoldable pub locales : Dict Text Text → Dict Text Text
locales source = filter (λ entry. is_locale (entry.0)) source

unfoldable pub clean_server_env : Dict Text Text → Dict Text Text
unfolding passed locales
clean_server_env source =
    insert (codes "PATH") baseline_path (update (passed passthrough source) (locales source))

unfoldable pub is_leaked : Text → Text → Bool
unfolding starts_with contains
is_leaked name value =
    not (contains name passthrough || is_locale name || name == codes "PWD")
    && not (name == codes "PATH" && value == baseline_path)

-- `leaked_names` before it is sorted
unfoldable pub leaked : Dict Text Text → List Text
unfolding is_leaked
leaked [] = []
leaked ((name, value) ∷ server_env) =
    let more = leaked server_env in if is_leaked name value then name ∷ more else more

-- a start from a clean environment would set the entry
abbrev IsClean : Dict Text Text → Type 0
IsClean d = All (λ entry. is_leaked (entry.0) (entry.1) ≡ false) d

allowed-clean :
    (name value : Text) → contains name passthrough ≡ true → is_leaked name value ≡ false
unfolding is_leaked
allowed-clean name value h = rw h refl

locale-clean : (name value : Text) → is_locale name ≡ true → is_leaked name value ≡ false
unfolding is_leaked
locale-clean name value h = elim (Bool-cases (contains name passthrough)) [
  | inl e ↦ rw e refl
  | inr e ↦ rw (e, h) refl
]

passed-IsClean :
    (names : List Text) (source : Dict Text Text)
    → All (λ name. contains name passthrough ≡ true) names
    → IsClean (passed names source)
unfolding passed
passed-IsClean [] source h = tt
passed-IsClean (name ∷ names) source (hn, h) = elim (Option-cases (lookup name source)) [
  | inl e ↦ rw (e, passed) (passed-IsClean names source h)
  | inr (value, e) ↦ rw (e, passed) (allowed-clean name value hn, passed-IsClean names source h)
]

locales-IsClean : (source : Dict Text Text) → IsClean (locales source)
unfolding locales filter
locales-IsClean [] = tt
locales-IsClean ((name, value) ∷ source) = elim (Bool-cases (is_locale name)) [
  | inl e ↦ rw (e, filter) (locale-clean name value e, locales-IsClean source)
  | inr e ↦ rw (e, filter) (locales-IsClean source)
]

insert-IsClean :
    (name value : Text) (d : Dict Text Text)
    → is_leaked name value ≡ false
    → IsClean d
    → IsClean (insert name value d)
unfolding insert
insert-IsClean name value [] h hd = (h, tt)
insert-IsClean name value ((other, old) ∷ d) h (ho, hd) = elim (Bool-cases (other == name)) [
  | inl e ↦ let same : other ≡ name = (==_iff other name).0 e in rw (e, insert) (rw same h, hd)
  | inr e ↦ rw (e, insert) (ho, insert-IsClean name value d h hd)
]

update-IsClean : (d more : Dict Text Text) → IsClean d → IsClean more → IsClean (update d more)
unfolding update
update-IsClean d [] hd h = hd
update-IsClean d ((name, value) ∷ more) hd (hn, h) =
    update-IsClean (insert name value d) more (insert-IsClean name value d hn hd) h

clean-leaked : (d : Dict Text Text) → IsClean d → leaked d ≡ []
unfolding leaked
clean-leaked [] h = refl
clean-leaked ((name, value) ∷ d) (hn, h) = rw (hn, leaked) (clean-leaked d h)

path-clean : is_leaked (codes "PATH") baseline_path ≡ false
unfolding is_leaked contains text_beq starts_with
path-clean = refl

contains-passthrough : All (λ name. contains name passthrough ≡ true) passthrough
unfolding contains text_beq
contains-passthrough = (
  refl,
  (
    refl,
    (
      refl,
      (
        refl,
        (
          refl,
          (
            refl,
            (
              refl,
              (
                refl,
                (refl, (refl, (refl, (refl, (refl, (refl, (refl, (refl, (refl, (refl, tt)))))))))),
              ),
            ),
          ),
        ),
      ),
    ),
  ),
)

locale_names :
    (is_locale (codes "LC_ALL") ≡ true)
    × (is_locale (codes "L") ≡ false)
    × (leaked ((codes "LC_ALL", codes "C") ∷ (codes "L", []) ∷ []) ≡ codes "L" ∷ [])
unfolding starts_with leaked contains text_beq
locale_names = (refl, refl, refl)

-- Whatever environment a server is started from, the environment it is given has no leaked name.
pub clean_server_env-leaked : (source : Dict Text Text) → leaked (clean_server_env source) ≡ []
unfolding clean_server_env
clean_server_env-leaked source = clean-leaked _ (
    insert-IsClean (codes "PATH") baseline_path _ path-clean (
      update-IsClean (passed passthrough source) (locales source)
        (passed-IsClean passthrough source contains-passthrough) (locales-IsClean source)))
