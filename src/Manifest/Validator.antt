-- ===== src/Manifest/Validator.antt =====
-- `ManifestValidator` of src/service_manifest/modules/manifest/validator.py. Each check returns
-- the violations that the source's check appends. `re.compile` is a parameter that gives the
-- error's text for a text that is no regular expression; the values of an environment table are
-- texts, so the branches for other values have no counterpart.
pub mod Base
pub mod Checks
pub mod DependsOn
pub mod Acyclic
pub mod Clean
pub mod Targets
pub mod Namespace
use winter_service_tmux.Prelude.{Text, Option, none, some, List, [], ◌∷◌, ◌++◌}
use winter_service_tmux.Prelude.Dict.{Dict}
use winter_service_tmux.Prelude.Str.{codes}
use winter_service_tmux.Manifest.Model.{Service, ServiceManifest}
use winter_service_tmux.Manifest.Violation.{Label, service, workspace_service, Violation}
use winter_service_tmux.Manifest.Validator.Base.{for_each}
use winter_service_tmux.Manifest.Validator.Checks.{
  check_service_names, check_duplicate_targets, target_non_negative, health_config, startup_config,
  check_log_config, port_config, cwd_config, service_env, health_vars,
}
use winter_service_tmux.Manifest.Validator.DependsOn.{check_depends_on}

-- the checks that need the environment file
unfoldable pub check_vars : ServiceManifest → Option (Dict Text Text) → List Violation
unfolding health_vars for_each
check_vars m none = []
check_vars m (some env) =
    for_each (health_vars env service) m.services
    ++ for_each (health_vars env workspace_service) m.workspace_services

-- the violations of one check after the other
unfoldable pub all_of : List (List Violation) → List Violation
all_of [] = []
all_of (found ∷ rest) = found ++ all_of rest

-- the checks in the order of `validate`
unfoldable pub checks :
    (Text → Option Text) → ServiceManifest → Option (Dict Text Text) → List (List Violation)
unfolding check_service_names check_duplicate_targets for_each check_depends_on check_log_config
    check_vars target_non_negative health_config startup_config port_config cwd_config service_env
checks regex_error m env =
    let project = m.services in
    let workspace = m.workspace_services in
    check_service_names m
    ∷ check_duplicate_targets service project
    ∷ check_duplicate_targets workspace_service workspace
    ∷ for_each (target_non_negative service) project
    ∷ for_each (target_non_negative workspace_service) workspace
    ∷ for_each (health_config regex_error service) project
    ∷ for_each (health_config regex_error workspace_service) workspace
    ∷ for_each (startup_config service) project
    ∷ for_each (startup_config workspace_service) workspace
    ∷ check_log_config m
    ∷ for_each (port_config service) project
    ∷ for_each (port_config workspace_service) workspace
    ∷ for_each (cwd_config service) project
    ∷ for_each (cwd_config workspace_service) workspace
    ∷ for_each (service_env service) project
    ∷ for_each (service_env workspace_service) workspace
    ∷ check_depends_on service none project
    ∷ check_depends_on workspace_service (some (codes "workspace")) workspace
    ∷ check_vars m env
    ∷ []

unfoldable pub validate :
    (Text → Option Text) → ServiceManifest → Option (Dict Text Text) → List Violation
unfolding checks all_of
validate regex_error m env = all_of (checks regex_error m env)
