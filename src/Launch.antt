-- ===== src/Launch.antt =====
-- src/service_orchestrator/modules/orchestrate/status_report.py: the line typed into a pane to
-- start a service, and the shape of the status document. A path is its text.
pub mod Quoting
pub mod Expansion
use winter_service_tmux.Prelude.{
  ℕ, zero, suc, ◌+◌, ◌-◌, ◌*◌, ◌/◌, ◌%◌, ◌≤◌, ◌<◌, ◌≡◌, refl, sym, ap, ◌∙◌, ◌≢◌, ◌↔◌, ◌⊎◌, inl, inr,
  Bool, true, false, not, ◌&&◌, ◌||◌, Option, none, some, List, [], ◌∷◌, ◌++◌, map, append_assoc,
  append-nil, arith, ltb, leb, nat_beq, if◌then◌else◌, Bool-cases, Option-cases, Eq, ◌==◌, ==_iff,
  ==_refl, nat_eq, Text, text_eq, text_beq, text_beq_iff, contains, contains-append, length, take,
  drop, filter, any, all, length-append, take-append-drop, length-drop, drop-append, filter-append,
  length-filter-le, All, All-append,
}
use winter_service_tmux.Prelude.Int.{ℤ, pos}
use winter_service_tmux.Prelude.Dict.{Dict}
use winter_service_tmux.Prelude.Str.{codes, show_int, strip, splitlines}
use winter_service_tmux.Prelude.Paths.{path_join}
use winter_service_tmux.Manifest.Env.{Piece, char, ref, pieces, is_name_char}

-- a character that `shlex.quote` leaves alone, `[A-Za-z0-9_@%+=:,./-]`
unfoldable pub is_safe : ℕ → Bool
unfolding is_name_char
is_safe c = is_name_char c || contains c (codes "@%+=:,./-")

-- `s.replace("'", "'\"'\"'")`
unfoldable pub escape_quotes : Text → Text
escape_quotes [] = []
escape_quotes (c ∷ s) =
    let more = escape_quotes s in if c == b'\'' then codes "'\"'\"'" ++ more else c ∷ more

-- `shlex.quote`
unfoldable pub quote : Text → Text
unfolding escape_quotes
quote [] = codes "''"
quote (c ∷ s) = if all is_safe (c ∷ s) then c ∷ s else b'\'' ∷ escape_quotes (c ∷ s) ++ (b'\'' ∷ [])

abbrev pub quote_run : Text → Text
quote_run [] = []
quote_run (c ∷ s) = quote (c ∷ s)

-- The loop of `_shell_expand_service_value`; `run` is the literal text since the last reference.
unfoldable pub expand_pieces : List Piece → Text → Text
unfolding quote
expand_pieces [] run = quote_run run
expand_pieces (char c ∷ ps) run = expand_pieces ps (run ++ (c ∷ []))
expand_pieces (ref name ∷ ps) run =
    quote_run run ++ (codes "\"${" ++ (name ++ (codes "}\"" ++ expand_pieces ps [])))

abbrev pub or_empty_word : Text → Text
or_empty_word [] = codes "''"
or_empty_word (c ∷ s) = c ∷ s

unfoldable pub shell_expand_service_value : Text → Text
unfolding expand_pieces
shell_expand_service_value value = or_empty_word (expand_pieces (pieces value) [])

-- `_shell_quote_service_value`
unfoldable pub shell_quote_service_value : Text → Text
unfolding quote
shell_quote_service_value value = or_empty_word (quote value)

abbrev below : Text → Text → Text
below worktree_dir [] = worktree_dir
below worktree_dir (c ∷ cwd) = path_join worktree_dir (c ∷ cwd)

unfoldable pub launch_cwd : Text → Option Text → Text
unfolding path_join
launch_cwd worktree_dir none = worktree_dir
launch_cwd worktree_dir (some cwd) = below worktree_dir cwd

-- The interpreter of the process and `WINTER_EXT_DIR`, else the package's own directory.
pub record Process : Type 0 where
  pub executable : Text
  pub ext_dir : Option Text
  pub package_dir : Text

abbrev in_extension : Text → Text → Text
in_extension package_dir [] = path_join package_dir (codes "logwriter.py")
in_extension package_dir (c ∷ dir) =
    path_join (c ∷ dir) (codes "src/service_orchestrator/logwriter.py")

unfoldable pub logwriter_path : Process → Text
unfolding path_join
logwriter_path process = elim (process.ext_dir) [
  | none ↦ path_join (process.package_dir) (codes "logwriter.py")
  | some dir ↦ in_extension (process.package_dir) dir
]

-- `logfile`, `rotate_size_bytes` and `max_rotations`, which come together
pub record Capture : Type 0 where
  pub logfile : Text
  pub rotate_size_bytes : ℤ
  pub max_rotations : ℤ

abbrev scope_source : Option Text → Text
scope_source none = []
scope_source (some scope) =
    codes " && __winter_env=\"$(winter env "
    ++ (quote scope ++ codes " --resolve)\" && eval \"$__winter_env\"")

abbrev file_source : Bool → Option Text → Text
file_source exported none = []
file_source exported (some path) =
    if exported
    then codes " && set -a && . " ++ (quote path ++ codes " && set +a")
    else codes " && . " ++ quote path

abbrev exports : Bool → Dict Text Text → Text
exports expand [] = []
exports expand ((key, value) ∷ service_env) =
    codes " && export "
    ++ (quote key
        ++ (b'='
            ∷ ((if expand
                  then shell_expand_service_value value
                  else shell_quote_service_value value)
                ++ exports expand service_env)))

abbrev is_empty_env : Dict Text Text → Bool
is_empty_env [] = true
is_empty_env (_ ∷ _) = false

abbrev command_part : Process → Text → Option Capture → Text
command_part process [] capture = []
command_part process (c ∷ command) none = codes " && " ++ (c ∷ command)
command_part process (c ∷ command) (some capture) =
    codes " && { "
    ++ ((c ∷ command)
        ++ (codes " ; } 2>&1 | "
            ++ (quote (process.executable)
                ++ (b' ' ∷ quote (logwriter_path process)
                    ++ (b' ' ∷ quote (capture.logfile)
                        ++ (codes " --rotate-size "
                            ++ (show_int (capture.rotate_size_bytes)
                                ++ (codes " --max-rotations "
                                    ++ show_int (capture.max_rotations)))))))))

unfoldable pub build_launch_line :
    Process
    → Text
    → Option Text
    → Text
    → Text
    → Option Text
    → Option Capture
    → Option Text
    → Dict Text Text
    → Bool
    → Bool
    → Text
unfolding launch_cwd quote shell_expand_service_value shell_quote_service_value
build_launch_line process worktree_dir scope name command env_file_path capture cwd service_env
      evaluate_env_file expand_service_references =
    codes "cd "
    ++ (quote (launch_cwd worktree_dir cwd)
        ++ (scope_source scope
            ++ (file_source (evaluate_env_file || not (is_empty_env service_env)) env_file_path
                ++ (exports expand_service_references service_env
                    ++ (codes " && echo "
                        ++ (quote (codes "=== " ++ (name ++ codes " ==="))
                            ++ command_part process command capture))))))

unfoldable last_of : List Text → Text → Text
unfolding strip
last_of [] found = found
last_of (line ∷ lines) found = last_of lines (if strip line == [] then found else line)

unfoldable pub last_non_blank_line : Text → Text
unfolding last_of splitlines
last_non_blank_line text = last_of (splitlines text) []

unfoldable pub truncate_status_line : ℕ → Text → Text
truncate_status_line width line = take width line

line_runs :
    (quote (codes "it's") ≡ codes "'it'\"'\"'s'")
    × (shell_expand_service_value (codes "a b${C}d") ≡ codes "'a b'\"${C}\"d")
    × (shell_expand_service_value [] ≡ codes "''")
    × (build_launch_line
          (record { executable = codes "/py"; ext_dir = some (codes "/x"); package_dir = [] })
          (codes "/w")
          (some (codes "alpha"))
          (codes "web")
          (codes "run")
          none
          (some
            (record { logfile = codes "/l"; rotate_size_bytes = pos 10; max_rotations = pos 2 }))
          (some (codes "app"))
          []
          false
          true
        ≡ codes
            "cd /w/app && __winter_env=\"$(winter env alpha --resolve)\" && eval \"$__winter_env\" && echo '=== web ===' && { run ; } 2>&1 | /py /x/src/service_orchestrator/logwriter.py /l --rotate-size 10 --max-rotations 2")
unfolding quote shell_expand_service_value build_launch_line pieces text_beq show_int logwriter_path
    all is_safe contains
line_runs = (refl, refl, refl, refl)
