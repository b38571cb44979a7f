-- ===== src/Manifest/Env/Pieces.antt =====
-- What env.py's references are: the pieces of a template, and the names among them.
use winter_service_tmux.Prelude.{
  ℕ, zero, suc, ◌+◌, ◌≤◌, ◌≡◌, refl, sym, ap, ◌∙◌, inl, inr, Bool, true, false, ◌&&◌, none, some,
  List, [], ◌∷◌, ◌++◌, append_assoc, append-nil, arith, Bool-cases, Option-cases, ◌==◌, ==_iff,
  nat_eq, Text, text_eq, contains, length, filter, all, length-append, filter-append,
}
use winter_service_tmux.Prelude.Dict.{Dict, lookup}
use winter_service_tmux.Manifest.Env.{
  Piece, char, ref, pieces, scan, match_var, closing, behind_dollar, span_name, starts_name,
  is_name_char, reference, substitute, interpolate, collect_refs, referenced_vars,
}

-- the text of the pieces
unfoldable pub text_of : List Piece → Text
text_of [] = []
text_of (char c ∷ ps) = c ∷ text_of ps
text_of (ref name ∷ ps) = reference name ++ text_of ps

span_name-append : (s : Text) → (span_name s).0 ++ (span_name s).1 ≡ s
unfolding span_name
span_name-append [] = refl
span_name-append (c ∷ s) = elim (Bool-cases (is_name_char c)) [
  | inl e ↦ rw (e, span_name) (ap (λ t. c ∷ t) (span_name-append s))
  | inr e ↦ rw (e, span_name) refl
]

span_name-names : (s : Text) → all is_name_char ((span_name s).0) ≡ true
unfolding span_name all
span_name-names [] = refl
span_name-names (c ∷ s) = elim (Bool-cases (is_name_char c)) [
  | inl e ↦ rw (e, span_name, all) (ground (arith, span_name-names s, e))
  | inr e ↦ rw (e, span_name) refl
]

-- a match: a name, and what makes up the text with its reference
abbrev Matches : Text → Text → Text → Type 0
Matches s name more = (s ≡ reference name ++ more) × (all is_name_char name ≡ true)

closing-end :
    (name rest n more : Text)
    → closing name rest ≡ some (n, more)
    → (n ≡ name) × (rest ≡ b'}' ∷ more)
closing-end name [] n more e = ground arith
closing-end name (c ∷ rest) n more e = elim (Bool-cases (starts_name name && c == b'}')) [
  | inl h ↦ ground (arith, e, h)
  | inr h ↦ ground (arith, e, h)
]

behind_dollar-end :
    (s n more : Text)
    → behind_dollar s ≡ some (n, more)
    → (s ≡ b'{' ∷ n ++ (b'}' ∷ more)) × (all is_name_char n ≡ true)
behind_dollar-end [] n more e = ground arith
behind_dollar-end (c ∷ s) n more e = elim (Bool-cases (c == b'{')) [
  | inl h ↦
      let e' : closing ((span_name s).0) ((span_name s).1) ≡ some (n, more) = sym (rw h refl) ∙ e in
      let (named, closed) = closing-end ((span_name s).0) ((span_name s).1) n more e' in
      let ec : c ≡ b'{' = (==_iff c b'{').0 h in
      let es : s ≡ n ++ (b'}' ∷ more) = sym (span_name-append s) ∙ rw (named, closed) refl in
      (cc, rw named (span_name-names s))
  | inr h ↦ ground (arith, e, h)
]

pub match_var-Matches : (s name more : Text) → match_var s ≡ some (name, more) → Matches s name more
unfolding match_var
match_var-Matches [] name more e = ground arith
match_var-Matches (c ∷ s) name more e = elim (Bool-cases (c == b'$')) [
  | inl h ↦
      let (eq, named) = behind_dollar-end s name more (sym (rw h refl) ∙ e) in
      let ec : c ≡ b'$' = (==_iff c b'$').0 h in (rw (append_assoc name (b'}' ∷ []) more) cc, named)
  | inr h ↦ ground (arith, e, h)
]

-- every reference is of a name
unfoldable pub AreNamed : List Piece → Type 0
AreNamed [] = Unit
AreNamed (char c ∷ ps) = AreNamed ps
AreNamed (ref name ∷ ps) = (all is_name_char name ≡ true) × AreNamed ps

scan_lem :
    (fuel : ℕ) (s : Text) → length s ≤ fuel → (text_of (scan fuel s) ≡ s) × AreNamed (scan fuel s)
unfolding scan text_of AreNamed
scan_lem zero [] short = (refl, tt)
scan_lem zero (c ∷ s) short = absurd (omega arith)
scan_lem (suc fuel) [] short = (refl, tt)
scan_lem (suc fuel) (c ∷ s) short = elim (Option-cases (match_var (c ∷ s))) [
  | inl e ↦
      let (eq, named) = scan_lem fuel s (omega arith) in rw (e, scan) (ap (λ t. c ∷ t) eq, named)
  | inr ((name, more), e) ↦
      let (whole, valid) = match_var-Matches (c ∷ s) name more e in
      let size : suc (length s) ≡ length (reference name) + length more =
        ap length whole ∙ length-append (reference name) more in
      let (eq, named) = scan_lem fuel more (omega arith) in
      rw (e, scan, eq) (sym whole, (valid, named))
]

pub pieces-AreNamed : (template : Text) → AreNamed (pieces template)
unfolding pieces
pieces-AreNamed template = (scan_lem (length template) template (omega arith)).1

-- the pieces with the values of the references
unfoldable pub render : Dict Text Text → List Piece → Text
render env [] = []
render env (char c ∷ ps) = c ∷ render env ps
render env (ref name ∷ ps) =
    (elim (lookup name env) [ none ↦ reference name | some value ↦ value ]) ++ render env ps

pub substitute-render :
    (env : Dict Text Text) (ps : List Piece) (rendered : Text) (unresolved : List Text)
    → (substitute env ps rendered unresolved).0 ≡ rendered ++ render env ps
unfolding substitute render
substitute-render env [] rendered unresolved = sym (append-nil rendered)
substitute-render env (char c ∷ ps) rendered unresolved =
    substitute-render env ps (rendered ++ (c ∷ [])) unresolved
    ∙ append_assoc rendered (c ∷ []) (render env ps)
substitute-render env (ref name ∷ ps) rendered unresolved = elim (Option-cases (lookup name env)) [
  | inl e ↦
      rw (e, substitute, render)
        (substitute-render env ps (rendered ++ reference name) _
          ∙ append_assoc rendered (reference name) (render env ps))
  | inr (value, e) ↦
      rw (e, substitute, render)
        (substitute-render env ps (rendered ++ value) _
          ∙ append_assoc rendered value (render env ps))
]

abbrev pub is_missing : Dict Text Text → Text → Bool
is_missing env name = elim (lookup name env) [ none ↦ true | some _ ↦ false ]

contains-filter :
    (p : Text → Bool) (name : Text) (xs : List Text)
    → p name ≡ true
    → contains name (filter p xs) ≡ contains name xs
unfolding contains filter
contains-filter p name [] h = refl
contains-filter p name (x ∷ xs) h =
    let same : (name == x) ≡ true → name ≡ x = (==_iff name x).0 in
    elim (Bool-cases (name == x)) [
      | inl e ↦ let px : p x ≡ true = rw (← same e) h in rw (px, e, contains) refl
      | inr e ↦ elim (Bool-cases (p x)) [
        | inl px ↦ rw (px, e, contains, contains-filter p name xs h) refl
        | inr px ↦ rw (px, e, contains-filter p name xs h) refl
      ]
    ]

filter_one : (p : Text → Bool) (name : Text) → p name ≡ true → filter p (name ∷ []) ≡ name ∷ []
unfolding filter
filter_one p name h = rw h refl

filter_none : (p : Text → Bool) (name : Text) → p name ≡ false → filter p (name ∷ []) ≡ []
unfolding filter
filter_none p name h = rw h refl

substitute-missing :
    (env : Dict Text Text) (ps : List Piece) (rendered : Text) (result : List Text)
    → (substitute env ps rendered (filter (is_missing env) result)).1
      ≡ filter (is_missing env) (collect_refs ps result)
unfolding substitute collect_refs
substitute-missing env [] rendered result = refl
substitute-missing env (char c ∷ ps) rendered result =
    substitute-missing env ps (rendered ++ (c ∷ [])) result
substitute-missing env (ref name ∷ ps) rendered result = elim (Option-cases (lookup name env)) [
  | inl e ↦
      let missing : is_missing env name ≡ true = rw (e, is_missing) refl in
      elim (Bool-cases (contains name result)) [
        | inl old ↦
            rw (e, substitute, contains-filter (is_missing env) name result missing, old)
              (substitute-missing env ps _ result)
        | inr new ↦
            let grown : filter (is_missing env) (result ++ (name ∷ []))
                ≡ filter (is_missing env) result ++ (name ∷ []) =
              rw
                (
                  filter-append (is_missing env) result (name ∷ []),
                  filter_one (is_missing env) name missing,
                )
                refl in
            rw (e, substitute, contains-filter (is_missing env) name result missing, new, ← grown)
              (substitute-missing env ps _ (result ++ (name ∷ [])))
      ]
  | inr (value, e) ↦
      let present : is_missing env name ≡ false = rw (e, is_missing) refl in
      elim (Bool-cases (contains name result)) [
        | inl old ↦ rw (e, substitute, old) (substitute-missing env ps _ result)
        | inr new ↦
            let same : filter (is_missing env) (result ++ (name ∷ []))
                ≡ filter (is_missing env) result =
              rw
                (
                  filter-append (is_missing env) result (name ∷ []),
                  filter_none (is_missing env) name present,
                )
                (append-nil _) in
            rw (e, substitute, new, ← same) (substitute-missing env ps _ (result ++ (name ∷ [])))
      ]
]

-- The names that an interpolation reports are the names that the template refers to and the
-- environment lacks, each once, in the order of their first reference.
pub interpolate-missing :
    (template : Text) (env : Dict Text Text)
    → (interpolate template env).1 ≡ filter (is_missing env) (referenced_vars template)
unfolding interpolate referenced_vars filter
interpolate-missing template env = substitute-missing env (pieces template) [] []
