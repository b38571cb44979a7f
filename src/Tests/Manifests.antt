-- ===== src/Tests/Manifests.antt =====
-- Cases of the manifest: its overlay and its validation.
use winter_service_tmux.Prelude.{
  ℕ, ◌≡◌, refl, ◌≢◌, ◌↔◌, ◌⊎◌, inl, inr, true, false, Option, none, some, List, [], ◌∷◌, ◌++◌, map,
  nat_eq, Text, text_eq, text_beq, All,
}
use winter_service_tmux.Prelude.{In, Distinct}
use winter_service_tmux.Prelude.Int.{pos}
use winter_service_tmux.Prelude.Dict.{keys}
use winter_service_tmux.Prelude.Str.{codes, split}
use winter_service_tmux.Manifest.Model.{Service, ServiceManifest, file, default_logs}
use winter_service_tmux.Manifest.Toml.{of_text, text, Fields}
use winter_service_tmux.Manifest.Cycle.{Graph, find_depends_on_cycle, cycle, clear}
use winter_service_tmux.Manifest.Cycle.Walks.{IsCycle, Walk, Edge}
use winter_service_tmux.Manifest.Cycle.Decides.{find_depends_on_cycle-decides}
use winter_service_tmux.Manifest.ScopePath.{isabs}
use winter_service_tmux.Manifest.ScopePath.Inside.{stays}
use winter_service_tmux.Manifest.Violation.{Label, workspace_service}
use winter_service_tmux.Manifest.Violation
use winter_service_tmux.Manifest.Validator.{validate}
use winter_service_tmux.Manifest.Validator.Checks.{
  is_blank, scoped, check_service_names, check_duplicate_targets, target_key, cwd_config,
}
use winter_service_tmux.Manifest.Validator.Acyclic.{names, Needs, check_depends_on-acyclic}
use winter_service_tmux.Manifest.Validator.DependsOn.{check_depends_on}
use winter_service_tmux.Manifest.Validator.Namespace.{check_service_names-Distinct}
use winter_service_tmux.Manifest.Validator.Targets.{check_duplicate_targets-Distinct}
use winter_service_tmux.Manifest.Validator.Clean.{IsOrderly, validate-IsOrderly, cwd_config-stays}
use winter_service_tmux.Manifest.Reader.Errors.{ok}
use winter_service_tmux.Manifest.Reader.Merge.{entry_key, merge_keyed}
use winter_service_tmux.Manifest.Reader.Keyed.{Named, HasKeys, values, override}
use winter_service_tmux.Manifest.Reader.Overlay.{merge_keyed-override}

abbrev pub service : Text → ℕ → List Text → Service
service name window deps = record {
  name = name;
  target = record { window = pos window; pane = pos 0 };
  cmd = codes "run";
  log = file;
  health = none;
  startup = none;
  port = none;
  cwd = some (codes "api/..");
  depends_on = deps;
  env = [];
}

abbrev pub db : Service
db = service (codes "db") 0 []

abbrev pub web : Service
web = service (codes "web") 1 (codes "db" ∷ [])

abbrev pub manifest : ServiceManifest
manifest = record {
  session_prefix = none;
  env_file = none;
  layout_hook = none;
  services = web ∷ db ∷ [];
  logs = default_logs;
  workspace_services =
      service (codes "p") 0 (codes "workspace/c" ∷ []) ∷ service (codes "c") 1 [] ∷ [];
  workspace_layout_hook = none;
}

abbrev pub any_regex : Text → Option Text
any_regex _ = none

pub manifest_is_clean : validate any_regex manifest none ≡ []
unfolding validate text_beq
manifest_is_clean = refl

validate-IsOrderly_example :
    Distinct (names manifest.services ++ names manifest.workspace_services)
    × IsOrderly none manifest.services
    × IsOrderly (some (codes "workspace")) manifest.workspace_services
validate-IsOrderly_example = validate-IsOrderly any_regex manifest none manifest_is_clean

deps_are_clean : check_depends_on Violation.service none manifest.services ≡ []
unfolding check_depends_on text_beq
deps_are_clean = refl

check_depends_on-acyclic_example :
    ((u v : Text) → Needs none manifest.services u v → In v (names manifest.services) × (u ≢ v))
    × ((u : Text) → ¬ Walk (Needs none manifest.services) u u)
check_depends_on-acyclic_example =
    check_depends_on-acyclic Violation.service none manifest.services
      ((λ i. elim i [ inl e ↦ absurd (cc e) | inr n ↦ n ]), ((λ i. i), tt)) deps_are_clean

abbrev ring : Graph
ring = (codes "a", codes "b" ∷ []) ∷ (codes "b", codes "a" ∷ []) ∷ []

find_depends_on_cycle-decides_example :
    ((l : List Text) × (find_depends_on_cycle ring ≡ cycle l) × IsCycle ring l)
    ⊎ ((find_depends_on_cycle ring ≡ clear) × ((n : Text) → ¬ Walk (Edge ring) n n))
find_depends_on_cycle-decides_example = find_depends_on_cycle-decides ring

check_service_names-Distinct_example : (check_service_names manifest ≡ []) ↔ (
    All (λ n. is_blank n ≡ false) (map (λ p. p.0.name) (scoped manifest))
    × Distinct (map (λ p. p.0.name) (scoped manifest)))
check_service_names-Distinct_example = check_service_names-Distinct manifest

check_duplicate_targets-Distinct_example :
    (check_duplicate_targets workspace_service (db ∷ db ∷ []) ≡ [])
    ↔ Distinct (map target_key (db ∷ db ∷ []))
check_duplicate_targets-Distinct_example =
    check_duplicate_targets-Distinct workspace_service (db ∷ db ∷ [])

cwd_config-stays_example :
    (cwd_config workspace_service db ≡ [])
    ↔ ((isabs (codes "api/..") ≡ false) × (stays 0 (split b'/' (codes "api/..")) ≡ true))
cwd_config-stays_example = cwd_config-stays workspace_service db (codes "api/..") refl

abbrev entry : Text → Text → Fields
entry name cmd = (codes "name", text name) ∷ (codes "cmd", text cmd) ∷ []

abbrev committed : Named
committed =
    (of_text (codes "db"), entry (codes "db") (codes "a"))
    ∷ (of_text (codes "web"), entry (codes "web") (codes "b"))
    ∷ []

abbrev overlay : Named
overlay =
    (of_text (codes "api"), entry (codes "api") (codes "c"))
    ∷ (of_text (codes "db"), entry (codes "db") (codes "d"))
    ∷ []

committed-HasKeys : HasKeys (codes "name") committed
unfolding entry_key text_beq
committed-HasKeys = (refl, (refl, tt))

overlay-HasKeys : HasKeys (codes "name") overlay
unfolding entry_key text_beq
overlay-HasKeys = (refl, (refl, tt))

merge_keyed-override_example :
    merge_keyed (codes "name") (codes "env" ∷ []) (values committed) (values overlay)
    ≡ ok (values (override (codes "env" ∷ []) overlay committed))
unfolding keys
merge_keyed-override_example =
    merge_keyed-override (codes "name") (codes "env" ∷ []) committed overlay committed-HasKeys
      overlay-HasKeys ((λ i. elim i [ inl e ↦ absurd (cc e) | inr n ↦ n ]), ((λ i. i), tt))
