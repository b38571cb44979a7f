-- ===== src/Orchestrator/Stop.antt =====
-- `down`, `restart_services` and `_restart_plan` of orchestrator_service.py.
use winter_service_tmux.Prelude.{
  ℕ, false, none, some, List, [], ◌∷◌, if◌then◌else◌, nat_eq, Text, text_eq,
}
use winter_service_tmux.Prelude.Dict.{Dict, lookup, get_or}
use winter_service_tmux.Manifest.Model.{Service}
use winter_service_tmux.Orchestrator.Host.{
  M, Done, Message, pure, throw, act, ask, ◌>>=◌, ◌>>◌, PaneInfo, write, kill_session, send_keys,
  reap_descendants, has_session, list_panes, no_running_session, stopped_some, stopped_all,
  restarted, unknown_service, pane_not_found,
}
use winter_service_tmux.Orchestrator.Context.{
  SessionContext, Seams, session, target_of, names_of, is_whole_scope, requested_services,
}
use winter_service_tmux.Orchestrator.Order.{by_name}
use winter_service_tmux.Orchestrator.Environment.{launch_lines_for}
use winter_service_tmux.Orchestrator.Start.{pane_map}

abbrev say : Seams → Message → M Done
say seams message = act (seams.outside) (write message)

-- Each service that has a pane is reaped there.
unfoldable pub reap_each : Seams → Dict Text ℕ → List Service → M Done
unfolding target_of
reap_each seams panes [] = pure tt
reap_each seams panes (svc ∷ services) =
    let later = reap_each seams panes services in
    elim (lookup (target_of svc) panes) [
      | none ↦ later
      | some pid ↦ act (seams.outside) (reap_descendants (pid ∷ [])) >> later
    ]

unfoldable pids_of : List PaneInfo → List ℕ
pids_of [] = []
pids_of (p ∷ panes) = p.pid ∷ pids_of panes

-- `down` on a session that is there; the message holds the set of requested names, which the
-- source sorts to print it.
unfoldable pub down_existing : Seams → SessionContext → List Text → M ℕ
unfolding reap_each pane_map pids_of session is_whole_scope requested_services
down_existing seams ctx requested = do
  panes ← ask (seams.outside.panes_answer) (list_panes (session ctx))
  if is_whole_scope ctx requested
      then (do
        act (seams.outside) (reap_descendants (pids_of panes))
        act (seams.outside) (kill_session (session ctx))
        say seams (stopped_all (ctx.env) (session ctx))
        pure 0)
      else (do
        reap_each seams (pane_map panes []) (requested_services requested (ctx.services))
        say seams (stopped_some requested (session ctx))
        pure 0)

unfoldable pub down : Seams → SessionContext → List Text → M ℕ
unfolding down_existing session
down seams ctx requested = do
  exists ← ask (seams.outside.flag_answer) (has_session (session ctx))
  if exists
      then down_existing seams ctx requested
      else say seams (no_running_session (session ctx)) >> pure 0

-- The services of the names, in the order of the names.
unfoldable pub find_services : Dict Text Service → List Text → List Text → M (List Service)
find_services known declared [] = pure []
find_services known declared (name ∷ names) =
    let later = find_services known declared names in
    elim (lookup name known) [
      | none ↦ throw (unknown_service name declared)
      | some svc ↦ do more ← later; pure (svc ∷ more)
    ]

unfoldable pub check_panes : SessionContext → Dict Text ℕ → List Service → M Done
unfolding target_of session
check_panes ctx panes [] = pure tt
check_panes ctx panes (svc ∷ services) =
    let later = check_panes ctx panes services in
    elim (lookup (target_of svc) panes) [
      | none ↦ throw (pane_not_found (target_of svc) (svc.name) (session ctx))
      | some _ ↦ later
    ]

-- `_restart_plan`: the services, their lines, and the panes
unfoldable pub restart_plan :
    Seams → SessionContext → List Text → M (List Service × Dict Text Text × Dict Text ℕ)
unfolding find_services check_panes launch_lines_for by_name names_of pane_map session
restart_plan seams ctx names = do
  services ← find_services (by_name (ctx.services) []) (names_of (ctx.services)) names
  lines ← launch_lines_for seams ctx false services []
  panes ← ask (seams.outside.panes_answer) (list_panes (session ctx))
  check_panes ctx (pane_map panes []) services
  pure (services, lines, pane_map panes [])

-- The loop of `restart_services`; the plan has a pane and a line for each service.
unfoldable pub restart_each :
    Seams → SessionContext → Dict Text Text → Dict Text ℕ → List Service → M Done
unfolding target_of session
restart_each seams ctx lines panes [] = pure tt
restart_each seams ctx lines panes (svc ∷ services) =
    let later = restart_each seams ctx lines panes services in
    (do
      act (seams.outside) (reap_descendants (get_or (target_of svc) 0 panes ∷ []))
      act (seams.outside) (send_keys (session ctx) (target_of svc) (get_or (svc.name) [] lines))
      say seams (restarted (svc.name) (session ctx) (target_of svc))
      later)

unfoldable pub restart_services : Seams → SessionContext → List Text → M ℕ
unfolding restart_plan restart_each
restart_services seams ctx names = do
  plan ← restart_plan seams ctx names
  let (services, lines, panes) = plan
  restart_each seams ctx lines panes services
  pure 0

-- `preflight_restart_services`
unfoldable pub preflight_restart_services : Seams → SessionContext → List Text → M Done
unfolding restart_plan
preflight_restart_services seams ctx names = do restart_plan seams ctx names; pure tt
