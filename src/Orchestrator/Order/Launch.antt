-- ===== src/Orchestrator/Order/Launch.antt =====
-- The launch order of a scope whose services do not depend on themselves.
use winter_service_tmux.Prelude.{
  ℕ, suc, ◌≡◌, refl, sym, ap, ◌∙◌, subst, ◌≢◌, inl, inr, not, List, [], ◌∷◌, ◌++◌, append-nil,
  arith, nat_beq, if◌then◌else◌, Bool-cases, ◌==◌, nat_eq, Text, text_eq, contains, length, filter,
  All,
}
use winter_service_tmux.Prelude.{
  In, All-map, All-In, All-at, Distinct, contains-In, count, count-In, In-count,
}
use winter_service_tmux.Prelude.Int.{pos, int_eq}
use winter_service_tmux.Prelude.Dict.{keys, get_or}
use winter_service_tmux.Manifest.Model.{Service}
use winter_service_tmux.Manifest.Cycle.{neighbors}
use winter_service_tmux.Manifest.Cycle.Walks.{Walk, one, Walk-map, IsSafe, IsChain, IsChain-Walk}
use winter_service_tmux.Manifest.Cycle.Decides.{find_depends_on_cycle-IsSafe}
use winter_service_tmux.Orchestrator.Context.{names_of}
use winter_service_tmux.Orchestrator.Order.{
  local_deps, in_degrees, kahn, ordered_names, topological_order,
}
use winter_service_tmux.Orchestrator.Order.Release.{Deps, deps_at}
use winter_service_tmux.Orchestrator.Order.Kahn.{deps_at-out}
use winter_service_tmux.Orchestrator.Order.ByName.{named, pick-names, filter-none}
use winter_service_tmux.Orchestrator.Order.LocalDeps.{
  Names, local_deps_of-Names, In-local_deps_of, keys-local_deps, deps_at-local_deps,
}
use winter_service_tmux.Orchestrator.Order.Invariant.{IsOrdered}
use winter_service_tmux.Orchestrator.Order.Topological.{result, ends, safe-In, count-keys}

-- a service named `u` has a pattern that stands for `v` in the scope
abbrev pub LocalNeeds : Text → List Service → Text → Text → Type 0
LocalNeeds scope services u v =
    (svc : Service) × In svc services × (svc.name ≡ u) × Names scope svc.depends_on v

-- each name stands behind the names of the scope that its service needs
abbrev pub Follows : Text → List Service → List Text → List Text → Type 0
Follows scope services before [] = Unit
Follows scope services before (n ∷ ns) =
    ((v : Text) → LocalNeeds scope services n v → In v (names_of services) → In v before)
    × Follows scope services (before ++ (n ∷ [])) ns

length-names_of : (services : List Service) → length (names_of services) ≡ length services
unfolding names_of
length-names_of [] = refl
length-names_of (s ∷ services) = ap suc (length-names_of services)

-- where all names are ordered, none is left to append
All-ordered :
    (k : ℕ) (o ns : List Text)
    → All (λ n. In n o) ns
    → (if nat_beq (length o) k then o else o ++ filter (λ name. not (contains name o)) ns) ≡ o
All-ordered k o ns h = elim (Bool-cases (nat_beq (length o) k)) [
  | inl e ↦ rw e refl
  | inr e ↦ rw (e, filter-none o ns h) (append-nil o)
]

module _ (scope : Text) (services : List Service) (distinct : Distinct (names_of services)) where
  graph : Deps
  graph = local_deps scope (names_of services) services []

  keys-graph : keys graph ≡ names_of services
  unfolding graph keys
  keys-graph = keys-local_deps scope (names_of services) services [] distinct

  edge-LocalNeeds :
      (u v : Text)
      → In v (deps_at u graph)
      → LocalNeeds scope services u v × (u ≢ v) × In v (names_of services)
  unfolding graph
  edge-LocalNeeds u v i = elim (Bool-cases (contains u (keys graph))) [
    | inr out ↦ absurd (subst (In v) (deps_at-out u graph out) i)
    | inl inside ↦
        let (svc, j, e) =
          named services u (rw keys-graph at ((contains-In u (keys graph)).0 inside)) in
        let at_name = subst (λ x. In v (deps_at x graph)) (sym e) i in
        let (needs, other, within) =
          local_deps_of-Names scope (names_of services) svc.name svc.depends_on v (
            subst (In v) (deps_at-local_deps scope (names_of services) services [] distinct svc j)
              at_name) in
        ((svc, j, e, needs), (λ q. other (e ∙ q)), within)
  ]

  LocalNeeds-edge :
      (u v : Text)
      → LocalNeeds scope services u v
      → u ≢ v
      → In v (names_of services)
      → In v (deps_at u graph)
  unfolding graph
  LocalNeeds-edge u v (svc, j, e, needs) other inside =
      subst (λ x. In v (deps_at x graph)) e
        (subst (In v)
          (sym (deps_at-local_deps scope (names_of services) services [] distinct svc j))
          (In-local_deps_of scope (names_of services) svc.name svc.depends_on v needs
            (λ q. other (sym e ∙ q)) inside))

  module _ (acyclic : (u : Text) → ¬ Walk (LocalNeeds scope services) u u) where
    all-IsSafe : (n : Text) → IsSafe graph n
    unfolding neighbors
    all-IsSafe = elim (find_depends_on_cycle-IsSafe graph) [
      | inl (l, _, (x, p, same, chain)) ↦ absurd (
          acyclic x (
            Walk-map (λ u v i. (edge-LocalNeeds u v i).0)
              (IsChain-Walk graph x x p (subst (IsChain graph) same chain))))
      | inr (_, ok) ↦ ok
    ]

    Distinct-keys : Distinct (keys graph)
    Distinct-keys = rw keys-graph distinct

    abbrev launched : List Text
    launched = result graph Distinct-keys

    launched-In : (n : Text) → In n (names_of services) → In n launched
    launched-In n i =
        safe-In graph Distinct-keys n (all-IsSafe n)
          (λ u v j. rw keys-graph ((edge-LocalNeeds u v j).2)) (rw keys-graph i)

    launched-count : (n : Text) → count n launched ≡ count n (names_of services)
    launched-count n =
        subst (λ ns. count n launched ≡ count n ns) keys-graph
          (elim (Bool-cases (contains n (keys graph))) [
            | inl k ↦
                let i = subst (In n) keys-graph ((contains-In n (keys graph)).0 k) in
                ground (
                  arith,
                  k,
                  ((ends graph Distinct-keys).1) n,
                  count-keys graph Distinct-keys n,
                  count-In n launched (launched-In n i),
                )
            | inr k ↦
                ground
                  (arith, k, ((ends graph Distinct-keys).1) n, count-keys graph Distinct-keys n)
          ])

    launched-Follows :
        (before ns : List Text) → IsOrdered graph before ns → Follows scope services before ns
    launched-Follows before [] h = tt
    launched-Follows before (n ∷ ns) (h, hs) = (
      λ v needs inside.
          All-at (λ d. In d before) (deps_at n graph) h v
            (LocalNeeds-edge n v needs
              (λ e. acyclic n (one (subst (LocalNeeds scope services n) (sym e) needs))) inside),
      launched-Follows (before ++ (n ∷ [])) ns hs,
    )

    ordered_names-launched : ordered_names services scope ≡ launched
    unfolding ordered_names graph
    ordered_names-launched =
        All-ordered (length services) order (names_of services) (
          All-map (λ n i. subst (In n) (sym same) (launched-In n i)) (names_of services)
            (All-In (names_of services)))
        ∙ same
      where
        order : List Text
        order =
            kahn (length services) graph (in_degrees graph)
              (filter (λ name. get_or name (pos 0) (in_degrees graph) == pos 0) (names_of services))
              []

        same : order ≡ launched
        same =
            ap
              (λ k.
                kahn k graph (in_degrees graph)
                  (filter (λ name. get_or name (pos 0) (in_degrees graph) == pos 0)
                    (names_of services))
                  [])
              (sym (length-names_of services))
            ∙ ap
                (λ ns.
                  kahn (length ns) graph (in_degrees graph)
                    (filter (λ name. get_or name (pos 0) (in_degrees graph) == pos 0) ns) [])
                (sym keys-graph)

    ordered_names-inside : All (λ n. In n (names_of services)) (ordered_names services scope)
    ordered_names-inside =
        subst (All (λ n. In n (names_of services))) (sym ordered_names-launched) (
          All-map
            (λ n i.
              In-count n (names_of services)
                (omega (arith, launched-count n, count-In n launched i)))
            launched (All-In launched))

    -- Where the names of a scope are distinct and no service needs itself, directly or through
    -- others, the launch order holds each service once, and each stands behind all services of
    -- the scope that it needs.
    pub topological_order-Follows :
        ((n : Text)
          → count n (names_of (topological_order services scope)) ≡ count n (names_of services))
        × Follows scope services [] (names_of (topological_order services scope))
    unfolding topological_order
    topological_order-Follows =
        rw
          (
            pick-names services (ordered_names services scope) ordered_names-inside,
            ordered_names-launched,
          )
          (launched-count, launched-Follows [] launched ((ends graph Distinct-keys).0))
