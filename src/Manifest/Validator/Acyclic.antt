-- ===== src/Manifest/Validator/Acyclic.antt =====
-- What a scope without a violation of `_check_depends_on` is sure of.
use winter_service_tmux.Prelude.{
  ◌≡◌, refl, sym, ◌∙◌, subst, ◌≢◌, ◌⊎◌, inl, inr, Option, none, some, List, [], ◌∷◌, ◌++◌, map,
  arith, Bool-cases, Option-cases, ◌==◌, ==_iff, ==_refl, nat_eq, Text, text_eq,
}
use winter_service_tmux.Prelude.{In, In-append, In-prepend, Distinct, nil_of_append}
use winter_service_tmux.Prelude.Dict.{Dict, lookup, insert, get_or-insert, lookup-insert}
use winter_service_tmux.Manifest.Model.{Service}
use winter_service_tmux.Manifest.Cycle.{Graph, find_depends_on_cycle, neighbors}
use winter_service_tmux.Manifest.Cycle.Walks.{Walk, Walk-map, Edge}
use winter_service_tmux.Manifest.Cycle.Decides.{find_depends_on_cycle-decides}
use winter_service_tmux.Manifest.Violation.{Label, Violation}
use winter_service_tmux.Manifest.Validator.DependsOn.{
  same_scope, last_named, check_dep, check_deps, check_services, cycle_violations, check_depends_on,
}

abbrev pub names : List Service → List Text
names services = map (λ s. s.name) services

-- a service named `u` has a pattern that stands for `v` in the scope
abbrev pub Needs : Option Text → List Service → Text → Text → Type 0
Needs scope_name services u v =
    (svc : Service) × In svc services
    × (svc.name ≡ u)
    × (p : Text) × In p svc.depends_on
    × (same_scope scope_name p ≡ some v)

In-insert_other :
    (u k : Text) (deps : List Text) (g : Graph)
    → k ≢ u
    → neighbors (insert k deps g) u ≡ neighbors g u
unfolding neighbors
In-insert_other u k deps g h = ground (arith, get_or-insert k u deps [] g, ==_iff k u)

insert_same : (k : Text) (deps : List Text) (g : Graph) → neighbors (insert k deps g) k ≡ deps
unfolding neighbors
insert_same k deps g = rw (get_or-insert k k deps [] g, ==_refl k) refl

-- a name that `last_named` finds is the name of a service
last_named-In :
    (services : List Service) (d : Dict Text Service) (v : Text) (svc : Service)
    → lookup v (last_named services d) ≡ some svc
    → In v (names services) ⊎ (lookup v d ≡ some svc)
unfolding last_named
last_named-In [] d v svc h = inr h
last_named-In (s ∷ services) d v svc h = elim (last_named-In services (insert s.name s d) v svc h) [
  | inl i ↦ inl (inr i)
  | inr e ↦ ground (arith, lookup-insert s.name v s d, ==_iff s.name v, e)
]

module _ (label : Label) (scope_name : Option Text) (by_name : Dict Text Service) where
  abbrev deps_of : Service → List Text
  deps_of svc = (check_deps label scope_name by_name svc svc.depends_on).1

  -- What a pattern without a violation stands for.
  abbrev Counts : Service → List Text → Text → Type 0
  Counts svc deps v =
      In v deps × (svc.name ≢ v) × ((target : Service) × (lookup v by_name ≡ some target))

  check_dep-Counts :
      (svc : Service) (dep : Text)
      → (check_dep label by_name svc dep).0 ≡ []
      → Counts svc ((check_dep label by_name svc dep).1) dep
  unfolding check_dep
  check_dep-Counts svc dep h = elim (Bool-cases (dep == svc.name)) [
    | inl e ↦ ground (arith, h, e)
    | inr e ↦ elim (Option-cases (lookup dep by_name)) [
      | inl n ↦ ground (arith, h, e, n)
      | inr (target, found) ↦
          rw (e, found, check_dep)
            (inl refl, (λ eq. cc ((==_iff dep svc.name).1 (sym eq), e)), (target, refl))
    ]
  ]

  check_deps-Counts :
      (svc : Service) (ps : List Text)
      → (check_deps label scope_name by_name svc ps).0 ≡ []
      → (p v : Text) → In p ps
      → same_scope scope_name p ≡ some v
      → Counts svc ((check_deps label scope_name by_name svc ps).1) v
  unfolding check_deps
  check_deps-Counts svc [] h p v i s = elim i [ ]
  check_deps-Counts svc (q ∷ ps) h p v i s = elim (Option-cases (same_scope scope_name q)) [
    | inl n ↦
        rw (n, check_deps) (check_deps-Counts svc ps (rw (n, check_deps) at h) p v (later n i) s)
    | inr (dep, e) ↦
        let here = check_dep label by_name svc dep in
        let rest = check_deps label scope_name by_name svc ps in
        let (h0, h1) = nil_of_append (here.0) (rest.0) (rw (e, check_deps) at h) in
        rw (e, check_deps)
          (elim i [
            | inl eq ↦
                grow_left (here.1) (rest.1)
                  (subst (Counts svc (here.1)) (same eq e) (check_dep-Counts svc dep h0))
            | inr j ↦ grow_right (here.1) (rest.1) (check_deps-Counts svc ps h1 p v j s)
          ])
  ]
    where
      later : same_scope scope_name q ≡ none → In p (q ∷ ps) → In p ps
      later n (inl eq) = absurd (cc (eq, n, s))
      later n (inr j) = j

      same : {dep : Text} → q ≡ p → same_scope scope_name q ≡ some dep → dep ≡ v
      same eq e = cc (eq, e, s)

      grow_left : (xs ys : List Text) → Counts svc xs v → Counts svc (xs ++ ys) v
      grow_left xs ys (j, c, f) = (In-append v xs ys j, c, f)

      grow_right : (xs ys : List Text) → Counts svc ys v → Counts svc (xs ++ ys) v
      grow_right xs ys (j, c, f) = (In-prepend v xs ys j, c, f)

  -- the graph keeps the entries of names that no later service has
  check_services-other :
      (services : List Service) (g : Graph) (u : Text)
      → ¬ In u (names services)
      → neighbors ((check_services label scope_name by_name services g).1) u ≡ neighbors g u
  unfolding check_services
  check_services-other [] g u h = refl
  check_services-other (svc ∷ services) g u h =
      check_services-other services (insert svc.name (deps_of svc) g) u (λ i. h (inr i))
      ∙ In-insert_other u svc.name (deps_of svc) g (λ e. h (inl e))

  check_services-neighbors :
      (services : List Service) (g : Graph)
      → Distinct (names services)
      → (svc : Service) → In svc services
      → neighbors ((check_services label scope_name by_name services g).1) svc.name ≡ deps_of svc
  unfolding check_services
  check_services-neighbors [] g d svc i = elim i [ ]
  check_services-neighbors (s ∷ services) g (fresh, d) svc (inl e) = rw (sym e) (
      check_services-other services (insert s.name (deps_of s) g) s.name fresh
      ∙ insert_same s.name (deps_of s) g)
  check_services-neighbors (s ∷ services) g (fresh, d) svc (inr i) =
      check_services-neighbors services (insert s.name (deps_of s) g) d svc i

  check_services-clean :
      (services : List Service) (g : Graph)
      → (check_services label scope_name by_name services g).0 ≡ []
      → (svc : Service) → In svc services
      → (check_deps label scope_name by_name svc svc.depends_on).0 ≡ []
  unfolding check_services
  check_services-clean [] g h svc i = elim i [ ]
  check_services-clean (s ∷ services) g h svc i =
      let (h0, h1) =
        nil_of_append ((check_deps label scope_name by_name s s.depends_on).0)
          ((check_services label scope_name by_name services (insert s.name (deps_of s) g)).0) h in
      elim i [
        | inl e ↦ rw (sym e) h0
        | inr j ↦ check_services-clean services (insert s.name (deps_of s) g) h1 svc j
      ]

cycle_violations-nil :
    (graph : Graph)
    → cycle_violations (find_depends_on_cycle graph) ≡ []
    → (n : Text) → ¬ Walk (Edge graph) n n
cycle_violations-nil graph h n = elim (find_depends_on_cycle-decides graph) [
  | inl (l, e, _) ↦ absurd (cc (rw e at h))
  | inr (_, ok) ↦ ok n
]

-- In a scope whose names are distinct, and of which the check of `depends_on` reports nothing,
-- each pattern for a service of the scope names another service of the scope, and no service
-- needs itself, directly or through others.
pub check_depends_on-acyclic :
    (label : Label) (scope_name : Option Text) (services : List Service)
    → Distinct (names services)
    → check_depends_on label scope_name services ≡ []
    → ((u v : Text) → Needs scope_name services u v → In v (names services) × (u ≢ v))
      × ((u : Text) → ¬ Walk (Needs scope_name services) u u)
unfolding check_depends_on lookup
check_depends_on-acyclic label scope_name services d h = (
  λ u v need. (resolved u v (counts u v need)).0,
  λ u w.
      cycle_violations-nil graph h1 u (Walk-map (λ x y need. (resolved x y (counts x y need)).1) w),
)
  where
    by_name : Dict Text Service
    by_name = last_named services []

    r : List Violation × Graph
    r = check_services label scope_name by_name services []

    graph : Graph
    graph = r.1

    clean : (r.0 ≡ []) × (cycle_violations (find_depends_on_cycle graph) ≡ [])
    clean = nil_of_append (r.0) (cycle_violations (find_depends_on_cycle graph)) h

    h1 : cycle_violations (find_depends_on_cycle graph) ≡ []
    h1 = clean.1

    counts :
        (u v : Text)
        → Needs scope_name services u v
        → Edge graph u v × (u ≢ v) × ((target : Service) × (lookup v by_name ≡ some target))
    counts u v (svc, i, e, p, j, s) =
        let (k, other, found) =
          check_deps-Counts label scope_name by_name svc svc.depends_on
            (check_services-clean label scope_name by_name services [] (clean.0) svc i) p v j s in
        rw (sym e) (
          (subst (In v)
              (sym (check_services-neighbors label scope_name by_name services [] d svc i)) k),
          other,
          found,
        )

    resolved :
        (u v : Text)
        → Edge graph u v × (u ≢ v) × ((target : Service) × (lookup v by_name ≡ some target))
        → (In v (names services) × (u ≢ v)) × Edge graph u v
    resolved u v (edge, other, (target, found)) = elim (last_named-In services [] v target found) [
      | inl i ↦ ((i, other), edge)
      | inr none_found ↦ absurd (cc none_found)
    ]
