-- ===== src/Orchestrator/Order/Kahn.antt =====
-- The launch order: what is ordered so far, and what is ready.
use winter_service_tmux.Prelude.{
  ℕ, ◌+◌, ◌≡◌, refl, subst, inl, inr, false, List, [], ◌∷◌, ◌++◌, map, arith, if◌then◌else◌,
  Bool-cases, ◌==◌, ==_iff, nat_eq, Text, text_eq, contains, contains-append, length, filter, All,
}
use winter_service_tmux.Prelude.{In, Distinct, contains-In, count, count-append}
use winter_service_tmux.Prelude.Int.{int_eq}
use winter_service_tmux.Prelude.Dict.{keys, get_or}
use winter_service_tmux.Orchestrator.Order.{dependents}
use winter_service_tmux.Orchestrator.Order.Release.{Deps, deps_at}

-- how many of the dependencies are not yet ordered
unfoldable pub waiting : List Text → List Text → ℕ
waiting ordered [] = 0
waiting ordered (d ∷ ds) = (if contains d ordered then 0 else 1) + waiting ordered ds

pub waiting-snoc :
    (o ds : List Text) (m : Text)
    → contains m o ≡ false
    → waiting o ds ≡ waiting (o ++ (m ∷ [])) ds + count m ds
unfolding waiting count contains
waiting-snoc o [] m h = omega arith
waiting-snoc o (d ∷ ds) m h = elim (Bool-cases (d == m)) [
  | inl e ↦
      rw (contains-append d o (m ∷ []), e, (==_iff d m).0 e, h)
        (omega (arith, waiting-snoc o ds m h))
  | inr e ↦ rw (contains-append d o (m ∷ []), e) (ground (arith, waiting-snoc o ds m h))
]

-- a list without waiting dependencies stands among the ordered names
pub waiting-zero : (o ds : List Text) → waiting o ds ≡ 0 → All (λ d. In d o) ds
unfolding waiting
waiting-zero o [] h = tt
waiting-zero o (d ∷ ds) h = elim (Bool-cases (contains d o)) [
  | inl e ↦ ((contains-In d o).0 e, waiting-zero o ds (omega (arith, h)))
  | inr e ↦ absurd (let bad : 1 + waiting o ds ≡ 0 = rw e at h in omega (arith, bad))
]

count-constant :
    (name n : Text) (ys : List Text)
    → count n (map (λ _. name) ys) ≡ (if name == n then length ys else 0)
unfolding count
count-constant name n [] = ground arith
count-constant name n (y ∷ ys) = ground (arith, count-constant name n ys)

length-filter-count :
    (dep : Text) (ds : List Text) → length (filter (λ x. x == dep) ds) ≡ count dep ds
unfolding count filter
length-filter-count dep [] = refl
length-filter-count dep (d ∷ ds) = ground (arith, length-filter-count dep ds)

count-dependents_cons :
    (dep n name : Text) (ds : List Text) (deps : Deps)
    → count n (dependents dep ((name, ds) ∷ deps))
      ≡ (if name == n then count dep ds else 0) + count n (dependents dep deps)
unfolding dependents
count-dependents_cons dep n name ds deps =
    rw
      (
        count-append n (map (λ _. name) (filter (λ x. x == dep) ds)) (dependents dep deps),
        count-constant name n (filter (λ x. x == dep) ds),
        length-filter-count dep ds,
      )
      refl

count-dependents_nil : (dep n : Text) → count n (dependents dep []) ≡ 0
unfolding dependents count
count-dependents_nil dep n = refl

count-dependents_out :
    (dep n : Text) (deps : Deps) → ¬ In n (keys deps) → count n (dependents dep deps) ≡ 0
unfolding keys
count-dependents_out dep n [] h = count-dependents_nil dep n
count-dependents_out dep n ((name, ds) ∷ deps) h = elim (Bool-cases (name == n)) [
  | inl e ↦ absurd (h (inl ((==_iff name n).0 e)))
  | inr e ↦
      rw (count-dependents_cons dep n name ds deps, e)
        (omega (arith, count-dependents_out dep n deps (λ i. h (inr i))))
]

pub count-dependents :
    (dep n : Text) (deps : Deps)
    → Distinct (keys deps)
    → count n (dependents dep deps) ≡ count dep (deps_at n deps)
unfolding keys get_or count
count-dependents dep n [] h = count-dependents_nil dep n
count-dependents dep n ((name, ds) ∷ deps) (out, h) = elim (Bool-cases (name == n)) [
  | inl e ↦
      let gone =
        count-dependents_out dep n deps
          (subst (λ x. ¬ In x (keys deps)) ((==_iff name n).0 e) out) in
      rw (count-dependents_cons dep n name ds deps, e) (omega (arith, gone))
  | inr e ↦
      rw (count-dependents_cons dep n name ds deps, e)
        (omega (arith, count-dependents dep n deps h))
]

-- a name with dependencies is a key
pub deps_at-out : (n : Text) (deps : Deps) → contains n (keys deps) ≡ false → deps_at n deps ≡ []
unfolding contains keys get_or
deps_at-out n [] h = refl
deps_at-out n ((name, ds) ∷ deps) h =
    ground (arith, ==_iff name n, ==_iff n name, deps_at-out n deps, h)
