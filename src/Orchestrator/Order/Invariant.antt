-- ===== src/Orchestrator/Order/Invariant.antt =====
-- The invariant of the launch order, kept by each round.
use winter_service_tmux.Prelude.{
  ℕ, zero, suc, ◌+◌, ◌-◌, ◌≤◌, ◌≡◌, sym, ap, ◌∙◌, inl, inr, false, ◌&&◌, List, [], ◌∷◌, ◌++◌,
  append_assoc, append-nil, arith, if◌then◌else◌, Bool-cases, ◌==◌, nat_eq, Text, text_eq, contains,
  length, all, length-append, All,
}
use winter_service_tmux.Prelude.{
  In, All-map, Distinct, contains-In, count, count-cons, count-nil, count-append, count-head,
  count-In, count-pigeonhole,
}
use winter_service_tmux.Prelude.Int.{ℤ, pos, int_eq}
use winter_service_tmux.Prelude.Dict.{Dict, keys}
use winter_service_tmux.Orchestrator.Order.{release, dependents, kahn}
use winter_service_tmux.Orchestrator.Order.Release.{Deps, deps_at, Measures, falls, release-lem}
use winter_service_tmux.Orchestrator.Order.Kahn.{
  waiting, waiting-snoc, waiting-zero, count-dependents, deps_at-out,
}

-- each name stands behind all its dependencies
abbrev pub IsOrdered : Deps → List Text → List Text → Type 0
IsOrdered deps before [] = Unit
IsOrdered deps before (n ∷ ns) =
    All (λ d. In d before) (deps_at n deps) × IsOrdered deps (before ++ (n ∷ [])) ns

IsOrdered-snoc :
    (deps : Deps) (before ns : List Text) (m : Text)
    → IsOrdered deps before ns
    → All (λ d. In d (before ++ ns)) (deps_at m deps)
    → IsOrdered deps before (ns ++ (m ∷ []))
IsOrdered-snoc deps before [] m h all =
    (All-map (λ d i. rw (sym (append-nil before)) i) (deps_at m deps) all, tt)
IsOrdered-snoc deps before (n ∷ ns) m (h, hs) all = (
  h,
  IsOrdered-snoc deps (before ++ (n ∷ [])) ns m hs
      (All-map (λ d i. rw (append_assoc before (n ∷ []) ns) i) (deps_at m deps) all),
)

module _ (deps : Deps) (distinct : Distinct (keys deps)) where
  abbrev pub pending : List Text → Text → ℕ
  pending o n = waiting o (deps_at n deps)

  -- one for a name without waiting dependencies
  abbrev pub due : List Text → Text → ℕ
  due o n = if contains n (keys deps) && pending o n == 0 then 1 else 0

  pub record Inv (o ready : List Text) (degrees : Dict Text ℤ) : Type 0 where
    pub measures : Measures degrees (pending o)
    pub counts : (n : Text) → count n o + count n ready ≡ due o n
    pub ordered : IsOrdered deps [] o

  contains-count : (n : Text) (o : List Text) → count n o ≡ 0 → contains n o ≡ false
  contains-count n o h = elim (Bool-cases (contains n o)) [
    | inl e ↦ absurd (omega (arith, h, count-In n o ((contains-In n o).0 e)))
    | inr e ↦ e
  ]

  module _ (o ready : List Text) (m : Text) (degrees : Dict Text ℤ)
      (inv : Inv o (m ∷ ready) degrees) where
    -- the first ready name is new, and waits for nothing
    front : (count m o ≡ 0) × (pending o m ≡ 0)
    front = ground (arith, inv.counts m, count-head m ready)

    one_less : (n : Text) → pending o n ≡ pending (o ++ (m ∷ [])) n + count n (dependents m deps)
    one_less n =
        rw (count-dependents m n deps distinct)
          (waiting-snoc o (deps_at n deps) m (contains-count m o (front.0)))

    abbrev released : Dict Text ℤ × List Text
    released = release (dependents m deps) degrees ready

    pub Inv-step : Inv (o ++ (m ∷ [])) (released.1) (released.0)
    Inv-step = record {
      measures = λ n. (releases.0) n ∙ ap pos (omega (arith, one_less n));
      counts = λ n. balance n;
      ordered = IsOrdered-snoc deps [] o m inv.ordered (waiting-zero o (deps_at m deps) (front.1));
    }
      where
        releases :
            Measures (released.0) (λ n. pending o n - count n (dependents m deps))
            × ((n : Text)
                → count n (released.1)
                  ≡ count n ready + falls (pending o n) (count n (dependents m deps)))
        releases =
            release-lem (dependents m deps) degrees ready (pending o) inv.measures
              (λ n. omega (arith, one_less n))

        none : (n : Text) → contains n (keys deps) ≡ false → count n (dependents m deps) ≡ 0
        none n k = count-dependents m n deps distinct ∙ rw (deps_at-out n deps k) (count-nil m)

        sum : (n : Text) → count n (o ++ (m ∷ [])) + count n ready ≡ due o n
        sum n = omega (
          arith,
          count-append n o (m ∷ []),
          count-cons n m [],
          count-nil n,
          count-cons n m ready,
          inv.counts n,
        )

        balance :
            (n : Text) → count n (o ++ (m ∷ [])) + count n (released.1) ≡ due (o ++ (m ∷ [])) n
        balance n = elim (Bool-cases (contains n (keys deps))) [
          | inl k ↦ ground (arith, k, sum n, (releases.1) n, one_less n)
          | inr k ↦ ground (arith, k, none n k, sum n, (releases.1) n, one_less n)
        ]

  due-le-count : (o : List Text) (n : Text) → due o n ≤ count n (keys deps)
  due-le-count o n = elim (Bool-cases (contains n (keys deps))) [
    | inl k ↦ ground (arith, k, count-In n (keys deps) ((contains-In n (keys deps)).0 k))
    | inr k ↦ ground (arith, k)
  ]

  -- what the loop returns holds each name that waits for nothing, once, behind its dependencies
  pub kahn-lem :
      (fuel : ℕ) (o ready : List Text) (degrees : Dict Text ℤ)
      → Inv o ready degrees
      → fuel + length o ≡ length (keys deps)
      → IsOrdered deps [] (kahn fuel deps degrees ready o)
        × ((n : Text)
            → count n (kahn fuel deps degrees ready o) ≡ due (kahn fuel deps degrees ready o) n)
  unfolding kahn
  kahn-lem zero o ready degrees inv e =
      (inv.ordered, λ n. omega (arith, inv.counts n, due-le-count o n, full n))
    where
      full : (n : Text) → count n o ≡ count n (keys deps)
      full =
          count-pigeonhole o (keys deps) (λ k. omega (arith, inv.counts k, due-le-count o k))
            (omega (arith, e))
  kahn-lem (suc fuel) o [] degrees inv e =
      (inv.ordered, λ n. omega (arith, inv.counts n, count-nil n))
  kahn-lem (suc fuel) o (m ∷ ready) degrees inv e =
      kahn-lem fuel (o ++ (m ∷ [])) _ _ (Inv-step o ready m degrees inv)
        (omega (arith, e, length-append o (m ∷ [])))
