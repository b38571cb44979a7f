-- ===== src/Orchestrator/Order/Validated.antt =====
-- A manifest that the validator accepts is launched in the order of its dependencies.
use winter_service_tmux.Prelude.{
  ◌≡◌, refl, ap, ◌∙◌, inl, inr, Option, some, List, [], ◌∷◌, Bool-cases, nat_eq, Text, text_eq,
  contains,
}
use winter_service_tmux.Prelude.{count}
use winter_service_tmux.Prelude.Dict.{Dict}
use winter_service_tmux.Prelude.Str.{codes}
use winter_service_tmux.Manifest.Model.{Service, ServiceManifest}
use winter_service_tmux.Manifest.Cycle.Walks.{Walk-map}
use winter_service_tmux.Manifest.Validator.{validate}
use winter_service_tmux.Manifest.Validator.DependsOn.{same_scope}
use winter_service_tmux.Manifest.Validator.Acyclic.{names, Needs}
use winter_service_tmux.Manifest.Validator.Clean.{validate-IsOrderly, Distinct-append}
use winter_service_tmux.Orchestrator.Context.{names_of}
use winter_service_tmux.Orchestrator.Order.{local_dep_name, topological_order}
use winter_service_tmux.Orchestrator.Order.Launch.{LocalNeeds, Follows, topological_order-Follows}

names_of-names : (services : List Service) → names_of services ≡ names services
unfolding names_of
names_of-names [] = refl
names_of-names (svc ∷ services) = ap (λ t. svc.name ∷ t) (names_of-names services)

-- The validator and the launch order read a pattern alike in a scope whose name is known.
same_scope-local_dep_name : (scope p : Text) → same_scope (some scope) p ≡ local_dep_name p scope
unfolding same_scope local_dep_name
same_scope-local_dep_name scope p = elim (Bool-cases (contains b'/' p)) [
  | inl e ↦ rw e refl
  | inr e ↦ rw e refl
]

pub LocalNeeds-Needs :
    (scope : Text) (services : List Service) (u v : Text)
    → LocalNeeds scope services u v
    → Needs (some scope) services u v
LocalNeeds-Needs scope services u v (svc, i, e, (p, j, s)) =
    (svc, i, e, p, j, same_scope-local_dep_name scope p ∙ s)

abbrev workspace : Text
workspace = codes "workspace"

-- The workspace services of a manifest of which the validator reports nothing are launched once
-- each, and each behind all workspace services that it needs.
pub validate-Follows :
    (regex_error : Text → Option Text) (m : ServiceManifest) (env : Option (Dict Text Text))
    → validate regex_error m env ≡ []
    → ((n : Text)
        → count n (names_of (topological_order m.workspace_services (codes "workspace")))
          ≡ count n (names_of m.workspace_services))
      × Follows
          (codes "workspace")
          m.workspace_services
          []
          (names_of (topological_order m.workspace_services (codes "workspace")))
validate-Follows regex_error m env h =
    let (distinct, _, (_, _, acyclic)) = validate-IsOrderly regex_error m env h in
    let (_, own) = Distinct-append (names m.services) (names m.workspace_services) distinct in
    topological_order-Follows workspace m.workspace_services
      (rw (names_of-names m.workspace_services) own)
      (λ u w. acyclic u (Walk-map (λ x y. LocalNeeds-Needs workspace m.workspace_services x y) w))
