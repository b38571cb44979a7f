-- ===== src/Orchestrator/Environment.antt =====
-- The environments and launch lines of orchestrator_service.py: `_service_environment` to
-- `_effective_service_environment`, `_launch_lines_for` and the helpers of the status operations.
use winter_service_tmux.Prelude.{
  Bool, true, false, not, ◌&&◌, ◌||◌, Option, none, some, List, [], ◌∷◌, if◌then◌else◌, ◌==◌,
  nat_eq, Text, text_eq, contains,
}
use winter_service_tmux.Prelude.Dict.{Dict, insert, lookup, update, erase}
use winter_service_tmux.Prelude.Str.{codes}
use winter_service_tmux.Manifest.Model.{file, pane, memory, url, cmd, log, uptime, Service}
use winter_service_tmux.Manifest.Env.{is_valid_env_name, malformed_references, resolve_service_env}
use winter_service_tmux.Launch.{Capture, build_launch_line, launch_cwd}
use winter_service_tmux.Orchestrator.Host.{
  M, pure, throw, ◌>>=◌, ◌>>◌, ask, scope_environment, env_file_environment, EnvFault, bad_key,
  nul_byte, malformed_reference, service_env, unresolvable,
}
use winter_service_tmux.Orchestrator.Context.{
  SessionContext, Seams, session, workspace_target, is_empty, log_path,
}

-- The first fault of an `env` table, in its order.
unfoldable pub env_fault : Dict Text Text → Option EnvFault
unfolding is_valid_env_name malformed_references
env_fault [] = none
env_fault ((key, value) ∷ env) =
    let later = env_fault env in
    if not (is_valid_env_name key)
    then some (bad_key key)
    else if contains 0 value
    then some (nul_byte key)
    else elim (malformed_references value) [
      | [] ↦ later
      | reference ∷ _ ↦ some (malformed_reference key reference)
    ]

unfoldable pub service_environment : Service → M (Dict Text Text)
unfolding env_fault
service_environment svc = elim (env_fault (svc.env)) [
  | none ↦ pure (svc.env)
  | some fault ↦ throw (service_env (svc.name) fault)
]

unfoldable pub process_environment : Seams → SessionContext → Dict Text Text
process_environment seams ctx = elim (ctx.env_vars) [ none ↦ seams.environ | some vars ↦ vars ]

abbrev with_scope : Seams → SessionContext → Text → Bool → Dict Text Text → M (Dict Text Text)
with_scope seams ctx cwd resolve_commands effective = elim (ctx.inject_scope) [
  | none ↦ pure effective
  | some scope ↦
      ask (seams.outside.env_answer) (scope_environment scope cwd effective resolve_commands)
]

abbrev with_env_file : Seams → SessionContext → Text → Dict Text Text → M (Dict Text Text)
with_env_file seams ctx cwd effective = elim (ctx.env_file_path) [
  | none ↦ pure effective
  | some path ↦ ask (seams.outside.env_answer) (env_file_environment path cwd effective)
]

unfoldable pub runtime_environment :
    Seams → SessionContext → Bool → Text → Bool → M (Dict Text Text)
unfolding process_environment
runtime_environment seams ctx resolve_commands cwd include_env_file = do
  effective ← with_scope seams ctx cwd resolve_commands (process_environment seams ctx)
  if include_env_file then with_env_file seams ctx cwd effective else pure effective

abbrev resolve_against : Service → Dict Text Text → Dict Text Text → M (Dict Text Text)
resolve_against svc mapping effective =
    let (resolved, unresolved) = resolve_service_env mapping effective in
    if is_empty unresolved then pure resolved else throw (unresolvable (svc.name) unresolved)

-- `_resolved_service_mapping` on a mapping that `_service_environment` has let through
unfoldable pub resolved_mapping :
    Seams
    → SessionContext
    → Service
    → Bool
    → Option (Dict Text Text)
    → Dict Text Text
    → M (Dict Text Text)
unfolding runtime_environment launch_cwd
resolved_mapping seams ctx svc resolve_commands base [] = pure []
resolved_mapping seams ctx svc resolve_commands (some base) (entry ∷ mapping) =
    resolve_against svc (entry ∷ mapping) base
resolved_mapping seams ctx svc resolve_commands none (entry ∷ mapping) = do
  effective ←
      runtime_environment seams ctx resolve_commands (launch_cwd (ctx.worktree_dir) (svc.cwd)) true
  resolve_against svc (entry ∷ mapping) effective

-- `bool(svc.cmd) and svc.log == LogMode.FILE`
unfoldable pub is_captured : Service → Bool
is_captured svc =
    not (is_empty (svc.cmd)) && (elim (svc.log) [ file ↦ true | pane ↦ false | memory ↦ false ])

abbrev capture_of : SessionContext → Service → Bool → Option Capture
capture_of ctx svc captured =
    if captured
    then some (record {
      logfile = log_path (ctx.worktree_dir) (svc.name);
      rotate_size_bytes = ctx.logs.rotate_size_bytes;
      max_rotations = ctx.logs.max_rotations;
    })
    else none

-- The line of one service, from its mapping as written: the pane expands the references.
unfoldable pub launch_line : Seams → SessionContext → Bool → Service → Dict Text Text → Text
unfolding is_captured log_path build_launch_line
launch_line seams ctx capture_logs svc mapping =
    let sources = not (ctx.env == workspace_target) || not (is_empty mapping) in
    build_launch_line (seams.process) (ctx.worktree_dir)
      (if sources then ctx.inject_scope else none) (svc.name) (svc.cmd)
      (if sources then ctx.env_file_path else none)
      (capture_of ctx svc (capture_logs && is_captured svc)) (svc.cwd) mapping
      (not (is_empty mapping)) true

-- `_launch_lines_for`, with the lines so far
unfoldable pub launch_lines_for :
    Seams → SessionContext → Bool → List Service → Dict Text Text → M (Dict Text Text)
unfolding service_environment resolved_mapping launch_line
launch_lines_for seams ctx capture_logs [] lines = pure lines
launch_lines_for seams ctx capture_logs (svc ∷ services) lines = do
  mapping ← service_environment svc
  resolved_mapping seams ctx svc true none mapping
  launch_lines_for seams ctx capture_logs services
      (insert (svc.name) (launch_line seams ctx capture_logs svc mapping) lines)

abbrev has_probe_environment : Service → Bool
has_probe_environment svc = elim (svc.health) [
  | none ↦ false
  | some health ↦ elim (health.type) [ url ↦ true | cmd ↦ true | log ↦ false | uptime ↦ false ]
]

unfoldable pub service_needs_runtime_environment : SessionContext → Service → Bool
service_needs_runtime_environment ctx svc =
    if ctx.env == workspace_target && is_empty (svc.env)
    then has_probe_environment svc
    else not (is_empty (svc.env)) || has_probe_environment svc

abbrev effective_base :
    Seams → SessionContext → Service → Option (Dict Text Text) → M (Dict Text Text)
effective_base seams ctx svc (some base) = pure base
effective_base seams ctx svc none =
    if service_needs_runtime_environment ctx svc
    then runtime_environment seams ctx false (launch_cwd (ctx.worktree_dir) (svc.cwd)) true
    else pure (process_environment seams ctx)

unfoldable pub effective_service_environment :
    Seams → SessionContext → Service → Option (Dict Text Text) → M (Dict Text Text)
unfolding service_environment runtime_environment service_needs_runtime_environment
    process_environment launch_cwd
effective_service_environment seams ctx svc base = do
  effective ← effective_base seams ctx svc base
  mapping ← service_environment svc
  resolved ← resolve_against svc mapping effective
  pure (update effective resolved)

abbrev validated : Service → M (Dict Text Text)
validated svc = if is_empty (svc.env) then pure [] else service_environment svc

-- `_service_environment_snapshots`, with the snapshots so far
unfoldable pub service_environment_snapshots :
    Seams
    → SessionContext
    → List Service
    → Dict Text (Dict Text Text)
    → M (Dict Text (Dict Text Text))
unfolding service_needs_runtime_environment service_environment runtime_environment launch_cwd
service_environment_snapshots seams ctx [] snapshots = pure snapshots
service_environment_snapshots seams ctx (svc ∷ services) snapshots =
    let skipped = service_environment_snapshots seams ctx services snapshots in
    if service_needs_runtime_environment ctx svc
    then (do
      validated svc
      effective ← runtime_environment seams ctx false (launch_cwd (ctx.worktree_dir) (svc.cwd)) true
      service_environment_snapshots seams ctx services (insert (svc.name) effective snapshots))
    else skipped

abbrev preflight_mapping :
    Seams → SessionContext → Service → Option (Dict Text Text) → M (Dict Text Text)
preflight_mapping seams ctx svc base =
    if is_empty (svc.env)
    then pure []
    else (do mapping ← service_environment svc; resolved_mapping seams ctx svc false base mapping)

-- `_preflight_service_mappings`
unfoldable pub preflight_service_mappings :
    Seams → SessionContext → List Service → Dict Text (Dict Text Text) → M (Dict Text Text)
unfolding service_environment resolved_mapping
preflight_service_mappings seams ctx [] environments = pure []
preflight_service_mappings seams ctx (svc ∷ services) environments = do
  preflight_mapping seams ctx svc (lookup (svc.name) environments)
  preflight_service_mappings seams ctx services environments

-- `_build_hook_env`
unfoldable pub build_hook_env : Seams → SessionContext → Dict Text Text
unfolding process_environment session
build_hook_env seams ctx = insert (codes "WINTER_ENV") (ctx.env) (
    insert (codes "WINTER_TMUX_WORKTREE_DIR") (ctx.worktree_dir) (
      insert (codes "WINTER_TMUX_SESSION") (session ctx) (
        insert (codes "WINTER_TMUX_SOCKET") (codes "winter")
          (erase (codes "TMUX_PANE") (process_environment seams ctx)))))
