-- ===== src/Manifest/Validator/Clean.antt =====
-- What a manifest is sure of when the validator reports nothing.
use winter_service_tmux.Prelude.{
  ◌≡◌, refl, ap, ◌≢◌, ◌↔◌, true, false, Option, none, some, List, [], ◌∷◌, ◌++◌, map, arith, nat_eq,
  Text, text_eq, All,
}
use winter_service_tmux.Prelude.{In, All-drop, In-append, Distinct, nil_of_append, pair_eq}
use winter_service_tmux.Prelude.Dict.{Dict}
use winter_service_tmux.Prelude.Str.{codes, split}
use winter_service_tmux.Manifest.Model.{Service, ServiceManifest}
use winter_service_tmux.Manifest.Cycle.Walks.{Walk}
use winter_service_tmux.Manifest.ScopePath.{isabs}
use winter_service_tmux.Manifest.ScopePath.Inside.{stays, escapes-stays}
use winter_service_tmux.Manifest.Violation.{Label, Violation, service, workspace_service}
use winter_service_tmux.Manifest.Validator.{checks, validate, all_of}
use winter_service_tmux.Manifest.Validator.Checks.{scoped, cwd_config, target_key}
use winter_service_tmux.Manifest.Validator.Acyclic.{names, Needs, check_depends_on-acyclic}
use winter_service_tmux.Manifest.Validator.Namespace.{check_service_names-Distinct}
use winter_service_tmux.Manifest.Validator.Targets.{check_duplicate_targets-Distinct}

-- The check of a working directory reports nothing exactly when the path is relative and the walk
-- along its components, from the scope root, never goes above the root.
pub cwd_config-stays :
    (label : Label) (svc : Service) (cwd : Text)
    → svc.cwd ≡ some cwd
    → (cwd_config label svc ≡ []) ↔ ((isabs cwd ≡ false) × (stays 0 (split b'/' cwd) ≡ true))
unfolding cwd_config
cwd_config-stays label svc cwd e = rw e (ground (arith, escapes-stays cwd))

names-append :
    (m : ServiceManifest)
    → map (λ (p : Service × Label). p.0.name) (scoped m)
      ≡ names m.services ++ names m.workspace_services
names-append m = go m.services
  where
    back :
        (l : List Service)
        → map (λ (p : Service × Label). p.0.name) (map (λ s. (s, workspace_service)) l) ≡ names l
    back [] = refl
    back (s ∷ l) = ap (λ t. s.name ∷ t) (back l)

    go :
        (l : List Service)
        → map
            (λ (p : Service × Label). p.0.name)
            (map (λ s. (s, service)) l ++ map (λ s. (s, workspace_service)) m.workspace_services)
          ≡ names l ++ names m.workspace_services
    go [] = back m.workspace_services
    go (s ∷ l) = ap (λ t. s.name ∷ t) (go l)

pub Distinct-append :
    {A : Type 0} (xs ys : List A) → Distinct (xs ++ ys) → Distinct xs × Distinct ys
Distinct-append [] ys d = (tt, d)
Distinct-append (x ∷ xs) ys (out, d) =
    let (dx, dy) = Distinct-append xs ys d in ((λ i. out (In-append x xs ys i), dx), dy)

all_of-nil :
    (results : List (List Violation)) → all_of results ≡ [] → All (λ found. found ≡ []) results
unfolding all_of
all_of-nil [] h = tt
all_of-nil (found ∷ rest) h =
    let (h0, h1) = nil_of_append found (all_of rest) h in (h0, all_of-nil rest h1)

-- A scope in which the dependencies and the targets are in order.
abbrev pub IsOrderly : Option Text → List Service → Type 0
IsOrderly scope_name services =
    Distinct (map target_key services)
    × ((u v : Text) → Needs scope_name services u v → In v (names services) × (u ≢ v))
    × ((u : Text) → ¬ Walk (Needs scope_name services) u u)

-- A manifest of which `validate` reports nothing, with or without an environment file, has
-- distinct names in the two scopes together; in each scope the targets are distinct, each pattern
-- for the scope names another service of the scope, and no service needs itself through others.
pub validate-IsOrderly :
    (regex_error : Text → Option Text) (m : ServiceManifest) (env : Option (Dict Text Text))
    → validate regex_error m env ≡ []
    → Distinct (names m.services ++ names m.workspace_services)
      × IsOrderly none m.services
      × IsOrderly (some (codes "workspace")) m.workspace_services
unfolding validate checks
validate-IsOrderly regex_error m env h =
    let results = checks regex_error m env in
    let clean = all_of-nil results h in
    let (naming, (own, (shared, _))) = clean in
    let (deps, (shared_deps, _)) = All-drop (λ found. found ≡ []) 16 results clean in
    let distinct = rw (names-append m) at (((check_service_names-Distinct m).0 naming).1) in
    let (own_names, shared_names) =
      Distinct-append (names m.services) (names m.workspace_services) distinct in
    let (own_needs, own_acyclic) =
      check_depends_on-acyclic service none m.services own_names deps in
    let (shared_needs, shared_acyclic) =
      check_depends_on-acyclic workspace_service (some (codes "workspace")) m.workspace_services
        shared_names shared_deps in
    (
      distinct,
      ((check_duplicate_targets-Distinct service m.services).0 own, own_needs, own_acyclic),
      (
        (check_duplicate_targets-Distinct workspace_service m.workspace_services).0 shared,
        shared_needs,
        shared_acyclic,
      ),
    )
