-- ===== src/Manifest/Validator/Namespace.antt =====
-- What a manifest is sure of when the checks of its names and of its targets report nothing.
use winter_service_tmux.Prelude.{
  ◌≡◌, refl, sym, ◌↔◌, inl, inr, false, List, [], ◌∷◌, map, arith, Bool-cases, nat_eq, Text,
  text_eq, contains, All,
}
use winter_service_tmux.Prelude.{In, Distinct, contains-In, pair_eq}
use winter_service_tmux.Prelude.Int.{int_eq}
use winter_service_tmux.Manifest.Model.{Service, ServiceManifest}
use winter_service_tmux.Manifest.Violation.{Label}
use winter_service_tmux.Manifest.Validator.Checks.{
  is_blank, scoped, check_names, check_service_names,
}

abbrev names : List (Service × Label) → List Text
names l = map (λ p. p.0.name) l

abbrev AreNamed : List Text → Type 0
AreNamed = All (λ n. is_blank n ≡ false)

abbrev AreFresh : List Text → List Text → Type 0
AreFresh seen = All (λ n. ¬ In n seen)

shrink : (n : Text) (seen ns : List Text) → AreFresh (n ∷ seen) ns → AreFresh seen ns × ¬ In n ns
shrink n seen [] h = (tt, λ i. i)
shrink n seen (m ∷ ns) (h, hs) =
    let (fresh, out) = shrink n seen ns hs in
    ((λ i. h (inr i), fresh), λ i. elim i [ inl e ↦ h (inl (sym e)) | inr j ↦ out j ])

extend : (n : Text) (seen ns : List Text) → AreFresh seen ns → ¬ In n ns → AreFresh (n ∷ seen) ns
extend n seen [] h out = tt
extend n seen (m ∷ ns) (h, hs) out = (
  λ i. elim i [ inl e ↦ out (inl (sym e)) | inr j ↦ h j ],
  extend n seen ns hs (λ i. out (inr i)),
)

check_names-Distinct :
    (l : List (Service × Label)) (seen : List Text)
    → check_names l seen ≡ []
    → AreNamed (names l) × AreFresh seen (names l) × Distinct (names l)
unfolding check_names
check_names-Distinct [] seen h = (tt, tt, tt)
check_names-Distinct ((svc, label) ∷ l) seen h = elim (Bool-cases (is_blank svc.name)) [
  | inl b ↦ ground (arith, h, b)
  | inr b ↦ elim (Bool-cases (contains svc.name seen)) [
    | inl c ↦ ground (arith, h, b, c)
    | inr c ↦
        let (named, fresh, d) =
          check_names-Distinct l (svc.name ∷ seen) (rw (b, c, check_names) at h) in
        let (old, out) = shrink svc.name seen (names l) fresh in
        ((b, named), (λ i. cc ((contains-In svc.name seen).1 i, c), old), (out, d))
  ]
]

check_names-nil :
    (l : List (Service × Label)) (seen : List Text)
    → AreNamed (names l)
    → AreFresh seen (names l)
    → Distinct (names l)
    → check_names l seen ≡ []
unfolding check_names
check_names-nil [] seen named fresh d = refl
check_names-nil ((svc, label) ∷ l) seen (b, named) (f, fresh) (out, d) =
    elim (Bool-cases (contains svc.name seen)) [
      | inl c ↦ absurd (f ((contains-In svc.name seen).0 c))
      | inr c ↦
          rw (b, c, check_names)
            (check_names-nil l (svc.name ∷ seen) named (extend svc.name seen (names l) fresh out) d)
    ]

AreFresh-nil : (ns : List Text) → AreFresh [] ns
AreFresh-nil [] = tt
AreFresh-nil (n ∷ ns) = (λ i. i, AreFresh-nil ns)

-- The check of names reports nothing exactly when no name of either scope is empty or blank, and
-- no name is used twice, also across the two scopes.
pub check_service_names-Distinct :
    (m : ServiceManifest)
    → (check_service_names m ≡ []) ↔ (
        All (λ n. is_blank n ≡ false) (map (λ p. p.0.name) (scoped m))
        × Distinct (map (λ p. p.0.name) (scoped m)))
unfolding check_service_names
check_service_names-Distinct m = (
  λ h. let (named, fresh, d) = check_names-Distinct (scoped m) [] h in (named, d),
  λ h. check_names-nil (scoped m) [] (h.0) (AreFresh-nil (names (scoped m))) (h.1),
)
