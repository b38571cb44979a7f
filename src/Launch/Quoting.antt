-- ===== src/Launch/Quoting.antt =====
-- Words of status_report.py's launch line, as a POSIX shell reads them.
use winter_service_tmux.Prelude.{
  ℕ, ◌≡◌, refl, sym, ap, ◌∙◌, inl, inr, Bool, true, false, ◌||◌, Option, none, some, [], ◌∷◌, ◌++◌,
  append_assoc, arith, if◌then◌else◌, Bool-cases, ◌==◌, ==_iff, nat_eq, Text, text_eq, contains,
  all,
}
use winter_service_tmux.Prelude.Dict.{Dict, lookup}
use winter_service_tmux.Manifest.Env.{is_name_char}
use winter_service_tmux.Launch.{is_safe, escape_quotes, quote}

-- Where the reader of a word stands.
pub data Mode : Type 0 where
  plain single double dollar : Mode
  name : Text → Mode

abbrev push : ℕ → Option Text → Option Text
push c none = none
push c (some s) = some (c ∷ s)

abbrev pub prepend : Text → Option Text → Option Text
prepend s none = none
prepend s (some t) = some (s ++ t)

-- The text of a word by the shell's rules (POSIX.1 2.2, 2.6.2): in single quotes a character
-- stands for itself; in double quotes `${NAME}` is the value of a set variable. `none` for a word
-- that is not over or that has another special character.
unfoldable pub read_word : Dict Text Text → Mode → Text → Option Text
unfolding is_safe
read_word vars plain [] = some []
read_word vars _ [] = none
read_word vars plain (c ∷ s) =
    let bare = push c (read_word vars plain s) in
    let quoted = read_word vars single s in
    let wide = read_word vars double s in
    if c == b'\'' then quoted else if c == b'"' then wide else if is_safe c then bare else none
read_word vars single (c ∷ s) =
    let inside = push c (read_word vars single s) in
    let outside = read_word vars plain s in if c == b'\'' then outside else inside
read_word vars double (c ∷ s) =
    let inside = push c (read_word vars double s) in
    let outside = read_word vars plain s in
    let reference = read_word vars dollar s in
    if c == b'"'
    then outside
    else if c == b'$'
    then reference
    else if c == b'`' || c == b'\\'
    then none
    else inside
read_word vars dollar (c ∷ s) =
    let begun = read_word vars (name []) s in if c == b'{' then begun else none
read_word vars (name n) (c ∷ s) =
    let over = read_word vars double s in
    let more = read_word vars (name (n ++ (c ∷ []))) s in
    if c == b'}'
    then (elim (lookup n vars) [ none ↦ none | some value ↦ prepend value over ])
    else if is_name_char c
    then more
    else none

pub apart : (p : ℕ → Bool) (c d : ℕ) → p c ≡ true → p d ≡ false → (c == d) ≡ false
apart p c d holds fails = elim (Bool-cases (c == d)) [
  | inl same ↦
      let e : c ≡ d = (==_iff c d).0 same in
      let e' : true ≡ false = sym holds ∙ ap p e ∙ fails in ground arith
  | inr differ ↦ differ
]

safe-bare : (c : ℕ) → is_safe c ≡ true → ((c == b'\'') ≡ false) × ((c == b'"') ≡ false)
unfolding is_safe is_name_char contains
safe-bare c h = (apart is_safe c b'\'' h refl, apart is_safe c b'"' h refl)

prepend-push : (c : ℕ) (s : Text) (o : Option Text) → push c (prepend s o) ≡ prepend (c ∷ s) o
prepend-push c s none = refl
prepend-push c s (some t) = refl

read_bare :
    (vars : Dict Text Text) (c : ℕ) (s : Text)
    → is_safe c ≡ true
    → read_word vars plain (c ∷ s) ≡ push c (read_word vars plain s)
unfolding read_word
read_bare vars c s h = rw ((safe-bare c h).0, (safe-bare c h).1, h) refl

all-split :
    (c : ℕ) (s : Text) → all is_safe (c ∷ s) ≡ true → (is_safe c ≡ true) × (all is_safe s ≡ true)
unfolding all
all-split c s h = (ground (arith, h), ground (arith, h))

pub prepend-nil : (o : Option Text) → o ≡ prepend [] o
prepend-nil none = refl
prepend-nil (some t) = refl

read_safe :
    (vars : Dict Text Text) (s t : Text)
    → all is_safe s ≡ true
    → read_word vars plain (s ++ t) ≡ prepend s (read_word vars plain t)
read_safe vars [] t h = prepend-nil _
read_safe vars (c ∷ s) t h =
    let (hc, hs) = all-split c s h in
    read_bare vars c (s ++ t) hc
    ∙ ap (push c) (read_safe vars s t hs)
    ∙ prepend-push c s (read_word vars plain t)

read_single :
    (vars : Dict Text Text) (c : ℕ) (s : Text)
    → (c == b'\'') ≡ false
    → read_word vars single (c ∷ s) ≡ push c (read_word vars single s)
unfolding read_word
read_single vars c s h = rw h refl

read_escaped :
    (vars : Dict Text Text) (s t : Text)
    → read_word vars single (escape_quotes s ++ (b'\'' ∷ t)) ≡ prepend s (read_word vars plain t)
unfolding read_word escape_quotes
read_escaped vars [] t = prepend-nil _
read_escaped vars (c ∷ s) t = elim (Bool-cases (c == b'\'')) [
  | inl same ↦
      let e : c ≡ b'\'' = (==_iff c b'\'').0 same in
      rw (same, escape_quotes)
        (ap (push b'\'') (read_escaped vars s t)
          ∙ prepend-push b'\'' s (read_word vars plain t)
          ∙ ap (λ x. prepend (x ∷ s) (read_word vars plain t)) (sym e))
  | inr differ ↦
      rw (differ, escape_quotes)
        (read_single vars c (escape_quotes s ++ (b'\'' ∷ t)) differ
          ∙ ap (push c) (read_escaped vars s t)
          ∙ prepend-push c s (read_word vars plain t))
]

-- A quoted text, whatever its characters, is read by the shell as that text, and what follows the
-- quotation is read on its own.
pub quote-read_word :
    (vars : Dict Text Text) (s t : Text)
    → read_word vars plain (quote s ++ t) ≡ prepend s (read_word vars plain t)
unfolding quote read_word
quote-read_word vars [] t = prepend-nil _
quote-read_word vars (c ∷ s) t = elim (Bool-cases (all is_safe (c ∷ s))) [
  | inl e ↦ rw (e, quote) (read_safe vars (c ∷ s) t e)
  | inr e ↦
      rw (e, quote, append_assoc (escape_quotes (c ∷ s)) (b'\'' ∷ []) t)
        (read_escaped vars (c ∷ s) t)
]
