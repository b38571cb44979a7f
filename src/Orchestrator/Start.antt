-- ===== src/Orchestrator/Start.antt =====
-- `up`, `_up_partial_existing` and the shared helpers of orchestrator_service.py. The
-- exit code is a number.
use winter_service_tmux.Prelude.{
  ℕ, Bool, true, false, not, Option, none, some, List, [], ◌∷◌, ◌++◌, leb, if◌then◌else◌, nat_eq,
  Text, text_eq, length,
}
use winter_service_tmux.Prelude.Dict.{Dict, lookup, insert, get_or}
use winter_service_tmux.Prelude.Str.{codes, join}
use winter_service_tmux.Manifest.Model.{Service}
use winter_service_tmux.Prelude.Paths.{path_join}
use winter_service_tmux.Orchestrator.Host.{
  M, Message, attempt, is_orchestrator_error, Done, returned, raised, pure, throw, catch, act, ask,
  ◌>>=◌, ◌>>◌, Failure, PaneInfo, write, new_session, kill_session, send_keys, run_hook,
  ensure_log_dir, has_session, list_windows, list_panes, tmux_env_value, has_children,
  already_running, hook_warning, prune_warning, dependency_error, dependency_timeout, started,
  retries_failed, targets_not_found, hook_failed, no_server, winter_cli_unavailable,
}
use winter_service_tmux.Orchestrator.Context.{
  SessionContext, Seams, session, target_of, is_empty, is_whole_scope, target_services,
}
use winter_service_tmux.Orchestrator.Order.{topological_order}
use winter_service_tmux.Orchestrator.Environment.{launch_lines_for, build_hook_env}
use winter_service_tmux.Orchestrator.Prune.{prune}
use winter_service_tmux.Orchestrator.Wait.{await_dependencies, await_startup}

abbrev say : Seams → Message → M Done
say seams message = act (seams.outside) (write message)

-- `{p.target: p.pid for p in pane_infos}`
unfoldable pub pane_map : List PaneInfo → Dict Text ℕ → Dict Text ℕ
pane_map [] d = d
pane_map (p ∷ panes) d = pane_map panes (insert (p.target) (p.pid) d)

abbrev is_unavailable : Failure → Bool
is_unavailable (winter_cli_unavailable _) = true
is_unavailable _ = false

-- What is wrong with the dependencies of a service: one that is not ready in time, or no `winter`.
unfoldable pub dependency_complaint : Seams → SessionContext → Service → M (Option Message)
unfolding await_dependencies
dependency_complaint seams ctx svc = do
  outcome ← attempt (await_dependencies seams ctx svc)
  elim outcome [
    | returned none ↦ pure none
    | returned (some pattern) ↦ pure (some (dependency_timeout (svc.name) pattern))
    | raised e ↦ if is_unavailable e then pure (some (dependency_error (svc.name) e)) else throw e
  ]

-- The loop that launches; `false` where it ends early.
unfoldable pub launch_all : Seams → SessionContext → Dict Text Text → List Service → M Bool
unfolding dependency_complaint session target_of
launch_all seams ctx lines [] = pure true
launch_all seams ctx lines (svc ∷ services) =
    let later = launch_all seams ctx lines services in
    (do
      complaint ← dependency_complaint seams ctx svc
      elim complaint [
        | some message ↦ say seams message >> pure false
        | none ↦
            act (seams.outside)
              (send_keys (session ctx) (target_of svc) (get_or (svc.name) [] lines))
            >> later
      ])

-- The end of both forms of `up`.
unfoldable pub finish :
    Seams → SessionContext → Bool → Dict Text ℕ → List Service → Dict Text Text → M ℕ
unfolding await_startup session
finish seams ctx retry pane_pids services lines = do
  say seams (started (session ctx))
  if not retry then pure 0 else (do
    failed ← await_startup seams ctx pane_pids services lines
    if is_empty failed
        then pure 0
        else say seams (retries_failed (join (codes ", ") failed)) >> pure 1)

-- The services whose pane is there and has no child, in order.
unfoldable pub launchable : Seams → Dict Text ℕ → List Service → M (List Service)
unfolding target_of
launchable seams panes [] = pure []
launchable seams panes (svc ∷ services) =
    let later = launchable seams panes services in
    elim (lookup (target_of svc) panes) [
      | none ↦ later
      | some pid ↦ do
        busy ← ask (seams.outside.flag_answer) (has_children pid)
        more ← later
        pure (if busy then more else svc ∷ more)
    ]

-- `launched_pane_pids` of a loop that runs to its end
unfoldable pub launched_pids : Dict Text ℕ → List Service → Dict Text ℕ → Dict Text ℕ
unfolding target_of
launched_pids panes [] d = d
launched_pids panes (svc ∷ services) d =
    launched_pids panes services
      (elim (lookup (target_of svc) panes) [ none ↦ d | some pid ↦ insert (target_of svc) pid d ])

-- `_up_partial_existing`
unfoldable pub up_partial_existing : Seams → SessionContext → List Service → Bool → M ℕ
unfolding launchable launch_all finish launched_pids pane_map session topological_order
    launch_lines_for
up_partial_existing seams ctx services retry = do
  panes ← ask (seams.outside.panes_answer) (list_panes (session ctx))
  let pids = pane_map panes []
  stopped ← launchable seams pids (topological_order services (ctx.env))
  lines ← launch_lines_for seams ctx true stopped []
  act (seams.outside) (ensure_log_dir (ctx.worktree_dir))
  done ← launch_all seams ctx lines stopped
  if done then finish seams ctx retry (launched_pids pids stopped []) services lines else pure 1

abbrev prune_or_warn : Seams → SessionContext → M Done
prune_or_warn seams ctx = catch (prune seams ctx) (λ e. say seams (prune_warning e))

abbrev tear_down : Seams → SessionContext → Failure → M ℕ
tear_down seams ctx e = do act (seams.outside) (kill_session (session ctx)); throw e

-- a hook that failed: a session of several windows is kept
abbrev hook_broke : Seams → SessionContext → Failure → M ℕ
hook_broke seams ctx e = do
  windows ← ask (seams.outside.texts_answer) (list_windows (session ctx))
  if leb (length windows) 1
      then tear_down seams ctx (hook_failed (session ctx) e)
      else say seams (hook_warning (session ctx) (length windows)) >> pure 1

-- The layout hook of a new session; `some code` ends the action.
unfoldable pub run_layout_hook : Seams → SessionContext → M (Option ℕ)
unfolding build_hook_env session path_join
run_layout_hook seams ctx = elim (ctx.layout_hook) [
  | none ↦ pure none
  | some hook ↦ do
    server ← attempt (ask (seams.outside.text_answer) (tmux_env_value (session ctx)))
    elim server [
      | raised e ↦
          if is_orchestrator_error e
          then tear_down seams ctx (no_server (session ctx) e) >> pure none
          else throw e
      | returned value ↦ do
        outcome ← attempt (
            act (seams.outside) (
              run_hook (path_join (ctx.config_dir) hook)
                (insert (codes "TMUX") value (build_hook_env seams ctx)) (ctx.worktree_dir)))
        elim outcome [
          | returned _ ↦ pure none
          | raised e ↦
              if is_orchestrator_error e
              then (do code ← hook_broke seams ctx e; pure (some code))
              else throw e
        ]
    ]
]

-- `missing_targets`
unfoldable pub missing_targets : Dict Text ℕ → List Service → List Text
unfolding target_of
missing_targets panes [] = []
missing_targets panes (svc ∷ services) =
    let more = missing_targets panes services in
    elim (lookup (target_of svc) panes) [
      | none ↦ (svc.name ++ (b'@' ∷ target_of svc)) ∷ more
      | some _ ↦ more
    ]

-- `up` on panes that are there
unfoldable pub start_services :
    Seams → SessionContext → List Service → List Service → Dict Text Text → Bool → M ℕ
unfolding missing_targets launch_all finish pane_map session
start_services seams ctx services ordered lines retry = do
  panes ← ask (seams.outside.panes_answer) (list_panes (session ctx))
  let pids = pane_map panes []
  let missing = missing_targets pids services
  if not (is_empty missing)
      then tear_down seams ctx (targets_not_found (session ctx) missing)
      else (do
        act (seams.outside) (ensure_log_dir (ctx.worktree_dir))
        done ← launch_all seams ctx lines ordered
        if done then finish seams ctx retry pids services lines else pure 1)

-- `up` where there is no session
unfoldable pub up_new : Seams → SessionContext → List Service → Bool → M ℕ
unfolding prune run_layout_hook start_services topological_order launch_lines_for session
up_new seams ctx services retry = do
  let ordered = topological_order services (ctx.env)
  lines ← launch_lines_for seams ctx true ordered []
  prune_or_warn seams ctx
  act (seams.outside) (new_session (session ctx) (ctx.worktree_dir))
  stop ← run_layout_hook seams ctx
  elim stop [ some code ↦ pure code | none ↦ start_services seams ctx services ordered lines retry ]

unfoldable pub up : Seams → SessionContext → Bool → List Text → M ℕ
unfolding up_partial_existing up_new is_whole_scope target_services session
up seams ctx retry requested = do
  exists ← ask (seams.outside.flag_answer) (has_session (session ctx))
  if exists
      then (if is_whole_scope ctx requested
          then say seams (already_running (session ctx)) >> pure 0
          else up_partial_existing seams ctx (target_services ctx requested) retry)
      else up_new seams ctx (target_services ctx requested) retry
