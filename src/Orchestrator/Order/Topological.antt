-- ===== src/Orchestrator/Order/Topological.antt =====
-- The launch order: a service stands behind those it depends on.
use winter_service_tmux.Prelude.{
  ◌≡◌, refl, sym, ap, ◌∙◌, inl, inr, List, [], ◌∷◌, arith, if◌then◌else◌, Bool-cases, ◌==◌, nat_eq,
  Text, text_eq, contains, length, filter, All,
}
use winter_service_tmux.Prelude.{
  In, All-map, All-In, Distinct, contains-In, count, count-filter, count-nil, count-In, In-count,
  count-out, count-Distinct,
}
use winter_service_tmux.Prelude.Int.{pos, int_eq}
use winter_service_tmux.Prelude.Dict.{keys, get_or}
use winter_service_tmux.Manifest.Cycle.{neighbors}
use winter_service_tmux.Manifest.Cycle.Walks.{IsSafe, safe}
use winter_service_tmux.Orchestrator.Order.{in_degrees, kahn}
use winter_service_tmux.Orchestrator.Order.Release.{Deps, deps_at, Measures}
use winter_service_tmux.Orchestrator.Order.Kahn.{waiting}
use winter_service_tmux.Orchestrator.Order.Invariant.{IsOrdered, Inv, due, kahn-lem}

waiting-nil : (ds : List Text) → waiting [] ds ≡ length ds
unfolding waiting contains
waiting-nil [] = refl
waiting-nil (d ∷ ds) = omega (arith, waiting-nil ds)

in_degrees-Measures : (deps : Deps) → Measures (in_degrees deps) (λ n. waiting [] (deps_at n deps))
unfolding in_degrees get_or waiting
in_degrees-Measures [] n = refl
in_degrees-Measures ((name, ds) ∷ deps) n = elim (Bool-cases (name == n)) [
  | inl e ↦ rw e (ap pos (sym (waiting-nil ds)))
  | inr e ↦ rw e (in_degrees-Measures deps n)
]

-- all names of a list of dependencies stand among the ordered
waiting-done : (o ds : List Text) → All (λ d. In d o) ds → waiting o ds ≡ 0
unfolding waiting
waiting-done o [] h = refl
waiting-done o (d ∷ ds) (i, h) = rw ((contains-In d o).1 i) (omega (arith, waiting-done o ds h))

module _ (deps : Deps) (distinct : Distinct (keys deps)) where
  abbrev pub first_ready : List Text
  first_ready = filter (λ name. get_or name (pos 0) (in_degrees deps) == pos 0) (keys deps)

  pub count-keys : (n : Text) → count n (keys deps) ≡ (if contains n (keys deps) then 1 else 0)
  count-keys n = elim (Bool-cases (contains n (keys deps))) [
    | inl k ↦ ground (
      arith,
      k,
      count-Distinct n (keys deps) distinct,
      count-In n (keys deps) ((contains-In n (keys deps)).0 k),
    )
    | inr k ↦ rw k (count-out n (keys deps) (λ i. cc ((contains-In n (keys deps)).1 i, k)))
  ]

  first_ready-count :
      (n : Text)
      → count n first_ready ≡ (if waiting [] (deps_at n deps) == 0 then count n (keys deps) else 0)
  first_ready-count n =
      count-filter (λ name. get_or name (pos 0) (in_degrees deps) == pos 0) n (keys deps)
      ∙ rw (in_degrees-Measures deps n) (ground arith)

  Inv-start : Inv deps distinct [] first_ready (in_degrees deps)
  Inv-start = record {
    measures = in_degrees-Measures deps;
    counts = λ n. ground (arith, count-nil n, first_ready-count n, count-keys n);
    ordered = tt;
  }

  abbrev pub result : List Text
  result = kahn (length (keys deps)) deps (in_degrees deps) first_ready []

  pub ends : IsOrdered deps [] result × ((n : Text) → count n result ≡ due deps distinct result n)
  ends =
      kahn-lem deps distinct (length (keys deps)) [] first_ready (in_degrees deps) Inv-start
        (omega arith)

  -- a name from which every walk ends is ordered
  pub safe-In :
      (n : Text)
      → IsSafe deps n
      → ((u v : Text) → In v (deps_at u deps) → In v (keys deps))
      → In n (keys deps)
      → In n result
  unfolding neighbors
  safe-In n (safe next) closed i =
      let done = waiting-done result (deps_at n deps) (
        All-map (λ v j. safe-In v (next v j) closed (closed n v j)) (deps_at n deps)
          (All-In (deps_at n deps))) in
      In-count n result (ground (arith, (ends.1) n, (contains-In n (keys deps)).1 i, done))
