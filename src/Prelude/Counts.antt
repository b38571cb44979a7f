-- ===== src/Prelude/Counts.antt =====
-- How often an element stands in a list.
use Prim.Native.Nat.{ℕ, suc, ◌+◌, ◌≤◌, ◌<◌}
use mathlib.Core.Path.{◌≡◌, refl, subst}
use mathlib.Core.Logic.{inl, inr}
use mathlib.Core.Bool.{Bool, false}
use mathlib.Core.List.{List, [], ◌∷◌, ◌++◌}
use native.Mathlib.Omega.{arith}
use winter_service_tmux.Prelude.Equality.{Eq, ◌==◌, ==_iff, ==_refl}
use winter_service_tmux.Prelude.Lists.{length, filter, In, Distinct}
use winter_service_tmux.Prelude.Tests.{if◌then◌else◌, Bool-cases}

module _ {K : Type 0} ⦃eq : Eq K⦄ where
  unfoldable pub count : K → List K → ℕ
  count k [] = 0
  count k (j ∷ ks) = (if j == k then 1 else 0) + count k ks

  pub count-head : (k : K) (ks : List K) → count k (k ∷ ks) ≡ 1 + count k ks
  unfolding count
  count-head k ks = rw (==_refl k) refl

  pub count-cons :
      (k j : K) (ks : List K) → count k (j ∷ ks) ≡ (if j == k then 1 else 0) + count k ks
  unfolding count
  count-cons k j ks = refl

  pub count-nil : (k : K) → count k [] ≡ 0
  unfolding count
  count-nil k = refl

  pub count-In : (k : K) (ks : List K) → In k ks → 0 < count k ks
  unfolding count
  count-In k [] i = elim i [ ]
  count-In k (j ∷ ks) (inl e) = rw ((==_iff j k).1 e) (omega arith)
  count-In k (j ∷ ks) (inr i) = omega (arith, count-In k ks i)

  pub count-out : (k : K) (ks : List K) → ¬ In k ks → count k ks ≡ 0
  unfolding count
  count-out k [] h = refl
  count-out k (j ∷ ks) h = elim (Bool-cases (j == k)) [
    | inl e ↦ absurd (h (inl ((==_iff j k).0 e)))
    | inr e ↦ rw e (omega (arith, count-out k ks (λ i. h (inr i))))
  ]

  pub Distinct-count : (ks : List K) → ((k : K) → count k ks ≤ 1) → Distinct ks
  unfolding count
  Distinct-count [] h = tt
  Distinct-count (j ∷ ks) h = (
    λ i.
        let twice : 1 + count j ks ≤ 1 = rw (==_refl j) at (h j) in
        omega (arith, twice, count-In j ks i),
    Distinct-count ks (λ k. omega (arith, h k)),
  )

  pub count-Distinct : (k : K) (ks : List K) → Distinct ks → count k ks ≤ 1
  unfolding count
  count-Distinct k [] h = omega arith
  count-Distinct k (j ∷ ks) (out, h) = elim (Bool-cases (j == k)) [
    | inl e ↦ rw (e, count-out k ks (subst (λ x. ¬ In x ks) ((==_iff j k).0 e) out)) (omega arith)
    | inr e ↦ rw e (omega (arith, count-Distinct k ks h))
  ]

  pub In-count : (k : K) (ks : List K) → 0 < count k ks → In k ks
  unfolding count
  In-count k [] h = absurd (omega (arith, h))
  In-count k (j ∷ ks) h = elim (Bool-cases (j == k)) [
    | inl e ↦ inl ((==_iff j k).0 e)
    | inr e ↦ let rest : 0 < 0 + count k ks = rw e at h in inr (In-count k ks (omega (arith, rest)))
  ]

  pub count-append : (k : K) (xs ys : List K) → count k (xs ++ ys) ≡ count k xs + count k ys
  unfolding count
  count-append k [] ys = omega arith
  count-append k (x ∷ xs) ys = omega (arith, count-append k xs ys)

  pub count-filter :
      (p : K → Bool) (k : K) (ks : List K) → count k (filter p ks) ≡ (if p k then count k ks else 0)
  unfolding count filter
  count-filter p k [] = ground arith
  count-filter p k (j ∷ ks) = elim (Bool-cases (j == k)) [
    | inl e ↦ rw ((==_iff j k).0 e) (ground (arith, count-filter p k ks, ==_refl k))
    | inr e ↦ ground (arith, count-filter p k ks, e)
  ]

  -- the list without its first `k`
  unfoldable without : K → List K → List K
  without k [] = []
  without k (j ∷ ks) = let rest = without k ks in if j == k then ks else j ∷ rest

  without-lem :
      (k : K) (ks : List K)
      → In k ks
      → (length ks ≡ suc (length (without k ks)))
        × ((j : K) → count j ks ≡ (if k == j then 1 else 0) + count j (without k ks))
  unfolding count without
  without-lem k [] i = elim i [ ]
  without-lem k (x ∷ ks) i = elim (Bool-cases (x == k)) [
    | inl e ↦ rw e (refl, λ j. rw ((==_iff x k).0 e) refl)
    | inr e ↦
        let (len, cnt) = without-lem k ks (later e i) in
        rw e (omega (arith, len), λ j. omega (arith, cnt j))
  ]
    where
      later : x == k ≡ false → In k (x ∷ ks) → In k ks
      later e (inl same) = absurd (cc ((==_iff x k).1 same, e))
      later e (inr j) = j

  -- a list that has each element at most as often as another of its length has it as often
  pub count-pigeonhole :
      (xs ys : List K)
      → ((k : K) → count k xs ≤ count k ys)
      → length xs ≡ length ys
      → (k : K) → count k xs ≡ count k ys
  unfolding count
  count-pigeonhole [] [] h e k = refl
  count-pigeonhole [] (y ∷ ys) h e k = absurd (omega (arith, e))
  count-pigeonhole (x ∷ xs) ys h e k =
      let (len, cnt) = without-lem x ys (In-count x ys (omega (arith, h x, count-head x xs))) in
      let rest =
        count-pigeonhole xs (without x ys) (λ j. omega (arith, h j, cnt j)) (omega (arith, e, len))
          k in
      omega (arith, rest, cnt k)
