-- ===== src/Launch/Expansion.antt =====
-- The shell's expansion of a service's environment agrees with the preflight's: status_report.py
-- and env.py.
use winter_service_tmux.Prelude.{
  ◌≡◌, refl, sym, ap, ◌∙◌, inl, inr, true, false, none, some, List, [], ◌∷◌, ◌++◌, append_assoc,
  append-nil, arith, if◌then◌else◌, Bool-cases, Option-cases, ◌==◌, nat_eq, Text, text_eq, contains,
  all,
}
use winter_service_tmux.Prelude.Dict.{Dict, lookup}
use winter_service_tmux.Prelude.Str.{codes}
use winter_service_tmux.Manifest.Env.{
  Piece, char, ref, pieces, is_name_char, interpolate, substitute, reference,
}
use winter_service_tmux.Manifest.Env.Pieces.{AreNamed, render, pieces-AreNamed, substitute-render}
use winter_service_tmux.Launch.{or_empty_word, quote_run, expand_pieces, shell_expand_service_value}
use winter_service_tmux.Launch.Quoting.{
  plain, double, name, prepend, read_word, apart, prepend-nil, quote-read_word,
}

-- every reference is of a name that has a value
unfoldable pub AreBound : Dict Text Text → List Piece → Type 0
AreBound vars [] = Unit
AreBound vars (char c ∷ ps) = AreBound vars ps
AreBound vars (ref n ∷ ps) = ((value : Text) × (lookup n vars ≡ some value)) × AreBound vars ps

read_name :
    (vars : Dict Text Text) (before n s : Text)
    → all is_name_char n ≡ true
    → read_word vars (name before) (n ++ (b'}' ∷ s)) ≡ (elim (lookup (before ++ n) vars) [
      | none ↦ none
      | some value ↦ prepend value (read_word vars double s)
    ])
unfolding read_word all
read_name vars before [] s h = rw (append-nil before) refl
read_name vars before (c ∷ n) s h =
    let hc : is_name_char c ≡ true = ground (arith, h) in
    let hn : all is_name_char n ≡ true = ground (arith, h) in
    let over : (c == b'}') ≡ false = apart is_name_char c b'}' hc (unfold is_name_char in refl) in
    rw (over, hc)
      (read_name vars (before ++ (c ∷ [])) n s hn ∙ rw (append_assoc before (c ∷ []) n) refl)

read_reference :
    (vars : Dict Text Text) (n value s : Text)
    → all is_name_char n ≡ true
    → lookup n vars ≡ some value
    → read_word vars plain (codes "\"${" ++ (n ++ (codes "}\"" ++ s)))
      ≡ prepend value (read_word vars plain s)
unfolding read_word
read_reference vars n value s h found = read_name vars [] n (b'"' ∷ s) h ∙ rw found refl

read_run :
    (vars : Dict Text Text) (run s : Text)
    → read_word vars plain (quote_run run ++ s) ≡ prepend run (read_word vars plain s)
read_run vars [] s = prepend-nil _
read_run vars (c ∷ run) s = quote-read_word vars (c ∷ run) s

expand_pieces-read_word :
    (vars : Dict Text Text) (ps : List Piece) (run : Text)
    → AreNamed ps
    → AreBound vars ps
    → read_word vars plain (expand_pieces ps run) ≡ some (run ++ render vars ps)
unfolding expand_pieces AreNamed AreBound render read_word
expand_pieces-read_word vars [] run named bound =
    ap (read_word vars plain) (sym (append-nil (quote_run run))) ∙ read_run vars run []
expand_pieces-read_word vars (char c ∷ ps) run named bound =
    expand_pieces-read_word vars ps (run ++ (c ∷ [])) named bound
    ∙ rw (append_assoc run (c ∷ []) (render vars ps)) refl
expand_pieces-read_word vars (ref n ∷ ps) run (hn, named) ((value, found), bound) =
    read_run vars run _
    ∙ ap (prepend run) (read_reference vars n value _ hn found)
    ∙ ap (λ o. prepend run (prepend value o)) (expand_pieces-read_word vars ps [] named bound)
    ∙ rw found refl

grown-nil : (n : Text) (u : List Text) → (if contains n u then u else u ++ (n ∷ [])) ≡ [] → ⊥
unfolding contains
grown-nil n [] e = ground arith
grown-nil n (x ∷ u) e = elim (Bool-cases (contains n (x ∷ u))) [
  | inl h ↦ ground (arith, e, h)
  | inr h ↦ ground (arith, e, h)
]

substitute-AreBound :
    (vars : Dict Text Text) (ps : List Piece) (rendered : Text) (unresolved : List Text)
    → (substitute vars ps rendered unresolved).1 ≡ []
    → (unresolved ≡ []) × AreBound vars ps
unfolding substitute AreBound
substitute-AreBound vars [] rendered unresolved e = (e, tt)
substitute-AreBound vars (char c ∷ ps) rendered unresolved e =
    substitute-AreBound vars ps (rendered ++ (c ∷ [])) unresolved e
substitute-AreBound vars (ref n ∷ ps) rendered unresolved e = elim (Option-cases (lookup n vars)) [
  | inl h ↦
      let (none_left, bound) =
        substitute-AreBound vars ps (rendered ++ reference n)
          (if contains n unresolved then unresolved else unresolved ++ (n ∷ []))
          (sym (rw (h, substitute) refl) ∙ e) in
      absurd (grown-nil n unresolved none_left)
  | inr (value, h) ↦
      let (none_left, bound) =
        substitute-AreBound vars ps (rendered ++ value) unresolved
          (sym (rw (h, substitute) refl) ∙ e) in
      (none_left, ((value, h), bound))
]

read_or_empty :
    (vars : Dict Text Text) (t : Text)
    → read_word vars plain (or_empty_word t) ≡ read_word vars plain t
unfolding read_word
read_or_empty vars [] = refl
read_or_empty vars (c ∷ t) = refl

-- Where an environment has a value for each reference of a mapping's value, the shell that has
-- that environment reads the word written into the launch line as the text that the preflight's
-- interpolation gives.
pub shell_expand_service_value-interpolate :
    (vars : Dict Text Text) (value : Text)
    → (interpolate value vars).1 ≡ []
    → read_word vars plain (shell_expand_service_value value) ≡ some ((interpolate value vars).0)
unfolding shell_expand_service_value interpolate
shell_expand_service_value-interpolate vars value resolved =
    read_or_empty vars (expand_pieces (pieces value) [])
    ∙ expand_pieces-read_word vars (pieces value) [] (pieces-AreNamed value)
        ((substitute-AreBound vars (pieces value) [] [] resolved).1)
    ∙ ap some (sym (substitute-render vars (pieces value) [] []))
