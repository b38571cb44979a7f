-- ===== src/Orchestrator/Status.antt =====
-- `status_env_document`, `_service_health`, `_port_base` and the port helpers of
-- orchestrator_service.py, and the documents of status_report.py.
use winter_service_tmux.Prelude.{
  ℕ, Bool, true, false, not, Option, none, some, List, [], ◌∷◌, ◌++◌, if◌then◌else◌, ◌==◌, nat_eq,
  Text, text_eq, any,
}
use winter_service_tmux.Prelude.Int.{ℤ, pos, ◌+ℤ◌}
use winter_service_tmux.Prelude.Dict.{Dict, lookup}
use winter_service_tmux.Prelude.Str.{codes, to_int}
use winter_service_tmux.Manifest.Model.{
  file, pane, memory, HealthType, log, uptime, Health, Port, literal, expression, Service,
  parse_port_expression,
}
use winter_service_tmux.Launch.{launch_cwd}
use winter_service_tmux.Orchestrator.Host.{
  M, pure, ask, ◌>>=◌, ◌>>◌, has_session, list_panes, has_children, child_uptime, capture_pane,
  read_tail, is_healthy,
}
use winter_service_tmux.Orchestrator.Context.{
  SessionContext, Seams, session, target_of, in_scope, workspace_target, log_path,
}
use winter_service_tmux.Orchestrator.Environment.{
  runtime_environment, process_environment, effective_service_environment,
  service_environment_snapshots, preflight_service_mappings, is_captured,
}
use winter_service_tmux.Orchestrator.Start.{pane_map}

pub data State : Type 0 where
  running stopped : State

pub data HealthWord : Type 0 where
  healthy unhealthy unknown : HealthWord

-- The entry of a service in the status document; `since` is always null.
pub record ServiceStatus : Type 0 where
  pub name : Text
  pub state : State
  pub health : HealthWord
  pub ports : List ℤ
  pub handle : Option Text
  pub log_file : Option Text

pub record EnvStatus : Type 0 where
  pub env : Text
  pub session_name : Text
  pub port_base : Option ℤ
  pub services : List ServiceStatus

unfoldable pub resolve_service_port : Option Port → Option ℤ → Option ℤ
unfolding parse_port_expression
resolve_service_port none base = none
resolve_service_port (some (literal port)) base = some port
resolve_service_port (some (expression text)) none = none
resolve_service_port (some (expression text)) (some base) = elim (parse_port_expression text) [
  | none ↦ none
  | some n ↦ some (base +ℤ pos n)
]

-- `_port_base`
unfoldable pub port_base_of : SessionContext → Dict Text Text → Option ℤ
unfolding to_int
port_base_of ctx vars =
    let var =
      (if ctx.env == workspace_target
        then codes "WINTER_WORKSPACE_PORT_BASE"
        else codes "WINTER_PORT_BASE") in
    elim (lookup var vars) [ none ↦ none | some raw ↦ to_int raw ]

abbrev is_expression : Option Port → Bool
is_expression (some (expression _)) = true
is_expression _ = false

-- `_port_environment`
unfoldable pub port_environment : Seams → SessionContext → List Service → M (Dict Text Text)
unfolding runtime_environment process_environment
port_environment seams ctx services =
    if any (λ svc. is_expression (svc.port)) services
    then runtime_environment seams ctx false (ctx.worktree_dir) false
    else pure (process_environment seams ctx)

-- `_log_source_for_health`
unfoldable pub log_source_for_health : Seams → SessionContext → Service → M Text
unfolding session target_of log_path
log_source_for_health seams ctx svc =
    let tail =
      ask (seams.outside.text_answer) (read_tail (log_path (ctx.worktree_dir) (svc.name)) 65536) in
    elim (svc.log) [
      | pane ↦ ask (seams.outside.text_answer) (capture_pane (session ctx) (target_of svc))
      | file ↦ tail
      | memory ↦ tail
    ]

abbrev log_source : Seams → SessionContext → Service → HealthType → M (Option Text)
log_source seams ctx svc log = log_source_for_health seams ctx svc >>= λ text. pure (some text)
log_source seams ctx svc _ = pure none

abbrev uptime_seconds : Seams → HealthType → Option ℕ → M (Option ℤ)
uptime_seconds seams uptime (some pid) = ask (seams.outside.uptime_answer) (child_uptime pid)
uptime_seconds seams _ _ = pure none

-- `_service_health` of a running service that declares a probe
abbrev probe :
    Seams → SessionContext → Service → Health → Option ℕ → Option (Dict Text Text) → M HealthWord
probe seams ctx svc health pid base = do
  source ← log_source seams ctx svc (health.type)
  seconds ← uptime_seconds seams (health.type) pid
  effective ← effective_service_environment seams ctx svc base
  ok ←
      ask (seams.outside.flag_answer)
        (is_healthy health effective (launch_cwd (ctx.worktree_dir) (svc.cwd)) source seconds)
  pure (if ok then healthy else unhealthy)

unfoldable pub service_health :
    Seams → SessionContext → Service → State → Option ℕ → Option (Dict Text Text) → M HealthWord
unfolding log_source_for_health effective_service_environment launch_cwd
service_health seams ctx svc state pid base = elim (svc.health) [
  | none ↦ pure unknown
  | some health ↦
      if not (seams.has_health_checker)
      then pure unknown
      else elim state [ stopped ↦ pure unhealthy | running ↦ probe seams ctx svc health pid base ]
]

abbrev state_of : Seams → Option ℕ → M State
state_of seams none = pure stopped
state_of seams (some pid) = do
  alive ← ask (seams.outside.flag_answer) (has_children pid)
  pure (if alive then running else stopped)

abbrev handle_of : SessionContext → Service → Option ℕ → Option Text
handle_of ctx svc none = none
handle_of ctx svc (some _) = some (session ctx ++ (b':' ∷ target_of svc))

-- `ports if ports else []`
abbrev ports_of : Option ℤ → List ℤ
ports_of none = []
ports_of (some port) = port ∷ []

-- one round of the loop of `status_env_document`
unfoldable pub service_status :
    Seams
    → SessionContext
    → Dict Text ℕ
    → Dict Text (Dict Text Text)
    → Dict Text Text
    → Service
    → M ServiceStatus
unfolding service_health target_of session log_path is_captured resolve_service_port port_base_of
service_status seams ctx panes environments port_env svc = do
  let pid = lookup (target_of svc) panes
  state ← state_of seams pid
  health ← service_health seams ctx svc state pid (lookup (svc.name) environments)
  pure (record {
    name = svc.name;
    state = state;
    health = health;
    ports = ports_of (resolve_service_port (svc.port) (port_base_of ctx port_env));
    handle = handle_of ctx svc pid;
    log_file = if is_captured svc then some (log_path (ctx.worktree_dir) (svc.name)) else none;
  })

unfoldable pub service_statuses :
    Seams
    → SessionContext
    → Dict Text ℕ
    → Dict Text (Dict Text Text)
    → Dict Text Text
    → List Service
    → M (List ServiceStatus)
unfolding service_status
service_statuses seams ctx panes environments port_env [] = pure []
service_statuses seams ctx panes environments port_env (svc ∷ services) = do
  doc ← service_status seams ctx panes environments port_env svc
  docs ← service_statuses seams ctx panes environments port_env services
  pure (doc ∷ docs)

abbrev live_panes : Seams → SessionContext → M (Dict Text ℕ)
live_panes seams ctx = do
  exists ← ask (seams.outside.flag_answer) (has_session (session ctx))
  if not exists then pure [] else (do
    panes ← ask (seams.outside.panes_answer) (list_panes (session ctx))
    pure (pane_map panes []))

unfoldable pub status_env_document : Seams → SessionContext → List Text → M EnvStatus
unfolding service_statuses pane_map session in_scope port_environment port_base_of
    service_environment_snapshots preflight_service_mappings
status_env_document seams ctx requested = do
  panes ← live_panes seams ctx
  environments ← service_environment_snapshots seams ctx (in_scope ctx requested) []
  port_env ← port_environment seams ctx (in_scope ctx requested)
  preflight_service_mappings seams ctx (in_scope ctx requested) environments
  docs ← service_statuses seams ctx panes environments port_env (in_scope ctx requested)
  pure (record {
    env = ctx.env;
    session_name = session ctx;
    port_base = port_base_of ctx port_env;
    services = docs;
  })
