-- ===== src/Orchestrator/Context.antt =====
-- src/service_orchestrator/modules/orchestrate/session_context.py and session_context_builder.py:
-- what an action is about.
use winter_service_tmux.Prelude.{
  ℕ, Bool, true, false, ◌||◌, Option, none, some, List, [], ◌∷◌, ◌++◌, if◌then◌else◌, ◌==◌, nat_eq,
  Text, text_eq, contains, filter, all,
}
use winter_service_tmux.Prelude.Dict.{Dict, lookup}
use winter_service_tmux.Prelude.Str.{codes, show_int}
use winter_service_tmux.Manifest.Model.{LogConfig, Service, ServiceManifest}
use winter_service_tmux.Launch.{Process}
use winter_service_tmux.Prelude.Paths.{path_join}
use winter_service_tmux.Orchestrator.Host.{Outside, Result, returned, raised, seam}

pub record SessionContext : Type 0 where
  pub env : Text
  pub workspace_root : Text
  pub worktree_dir : Text
  pub config_dir : Text
  pub session_prefix : Text
  pub services : List Service
  pub layout_hook : Option Text
  pub logs : LogConfig
  pub env_vars : Option (Dict Text Text)
  pub inject_scope : Option Text
  pub env_file_path : Option Text

unfoldable pub session : SessionContext → Text
session ctx = ctx.session_prefix ++ (b'-' ∷ ctx.env)

abbrev pub workspace_target : Text
workspace_target = codes "workspace"

-- `f"{svc.target.window}.{svc.target.pane}"`
unfoldable pub target_of : Service → Text
unfolding show_int
target_of svc = show_int (svc.target.window) ++ (b'.' ∷ show_int (svc.target.pane))

unfoldable pub names_of : List Service → List Text
names_of [] = []
names_of (svc ∷ services) = svc.name ∷ names_of services

abbrev pub is_empty : {A : Type 0} → List A → Bool
is_empty [] = true
is_empty (_ ∷ _) = false

-- `not requested or requested >= {svc.name for svc in ctx.services}`
unfoldable pub is_whole_scope : SessionContext → List Text → Bool
unfolding names_of
is_whole_scope ctx requested =
    is_empty requested || all (λ name. contains name requested) (names_of (ctx.services))

unfoldable pub requested_services : List Text → List Service → List Service
requested_services requested services = filter (λ svc. contains (svc.name) requested) services

-- `target_services` of `up`
unfoldable pub target_services : SessionContext → List Text → List Service
unfolding is_whole_scope requested_services
target_services ctx requested =
    if is_whole_scope ctx requested
    then ctx.services
    else requested_services requested (ctx.services)

-- `in_scope` of the two status operations
unfoldable pub in_scope : SessionContext → List Text → List Service
unfolding requested_services
in_scope ctx requested =
    if is_empty requested then ctx.services else requested_services requested (ctx.services)

-- a `float` number of seconds; one that is not above 0, or no number, is 0
pub data Float : Type 0 where
  microseconds : ℕ → Float
  infinite : Float

-- The process the orchestrator runs in, and the seams it was given. `float_of` is Python's `float`.
pub record Seams : Type 0 where
  pub outside : Outside
  pub process : Process
  pub environ : Dict Text Text
  pub float_of : Text → Option Float
  pub has_winter_cli : Bool
  pub has_clock : Bool
  pub has_health_checker : Bool

unfoldable pub log_dir : Text → Text
unfolding path_join
log_dir worktree_dir = path_join (path_join worktree_dir (codes ".winter")) (codes "logs")

unfoldable pub log_path : Text → Text → Text
unfolding log_dir
log_path worktree_dir service = path_join (log_dir worktree_dir) (service ++ codes ".log")

abbrev under : Text → Option Text → Option Text
under dir none = none
under dir (some name) = some (path_join dir name)

-- the manifest's own prefix, else the variable where it is not empty
unfoldable pub resolve_session_prefix : Dict Text Text → Option Text → Result Text
resolve_session_prefix environ (some prefix) = returned prefix
resolve_session_prefix environ none = elim (lookup (codes "WINTER_SERVICE_PREFIX") environ) [
  | none ↦ raised (seam (codes "cannot resolve the tmux session-name prefix"))
  | some prefix ↦
      if is_empty prefix
      then raised (seam (codes "cannot resolve the tmux session-name prefix"))
      else returned prefix
]

-- `build`, from the manifest as read and merged; `env_vars` is what the env-file reader resolved,
-- `none` where it is skipped.
unfoldable pub build :
    Dict Text Text
    → ServiceManifest
    → Text
    → Text
    → Option (Dict Text Text)
    → Text
    → Result SessionContext
unfolding resolve_session_prefix path_join
build environ manifest workspace_root config_dir env_vars env =
    elim (resolve_session_prefix environ (manifest.session_prefix)) [
      | raised e ↦ raised e
      | returned prefix ↦ returned (record {
        env = env;
        workspace_root = workspace_root;
        worktree_dir = path_join workspace_root env;
        config_dir = config_dir;
        session_prefix = prefix;
        services = manifest.services;
        layout_hook = manifest.layout_hook;
        logs = manifest.logs;
        env_vars = env_vars;
        inject_scope = some env;
        env_file_path = under (path_join workspace_root env) (manifest.env_file);
      })
    ]

unfoldable pub build_workspace :
    Dict Text Text → ServiceManifest → Text → Text → Result SessionContext
unfolding resolve_session_prefix
build_workspace environ manifest workspace_root config_dir =
    elim (resolve_session_prefix environ (manifest.session_prefix)) [
      | raised e ↦ raised e
      | returned prefix ↦ returned (record {
        env = workspace_target;
        workspace_root = workspace_root;
        worktree_dir = workspace_root;
        config_dir = config_dir;
        session_prefix = prefix;
        services = manifest.workspace_services;
        layout_hook = manifest.workspace_layout_hook;
        logs = manifest.logs;
        env_vars = none;
        inject_scope = some workspace_target;
        env_file_path = under workspace_root (manifest.env_file);
      })
    ]

unfoldable pub build_for_target :
    Dict Text Text
    → ServiceManifest
    → Text
    → Text
    → Option (Dict Text Text)
    → Text
    → Result SessionContext
unfolding build build_workspace
build_for_target environ manifest workspace_root config_dir env_vars target =
    if target == workspace_target
    then build_workspace environ manifest workspace_root config_dir
    else build environ manifest workspace_root config_dir env_vars target
