-- ===== src/Orchestrator/Untouched.antt =====
-- What a partial `up` and a partial `down` of orchestrator_service.py leave alone.
use winter_service_tmux.Prelude.{
  ℕ, ◌≡◌, inl, inr, false, some, List, [], ◌∷◌, Option-cases, nat_eq, Text, text_eq, All,
}
use winter_service_tmux.Prelude.{In, All-In, All-map}
use winter_service_tmux.Prelude.Dict.{Dict, lookup}
use winter_service_tmux.Manifest.Model.{Service}
use winter_service_tmux.Orchestrator.Host
use winter_service_tmux.Orchestrator.Host.{
  M, Done, Result, returned, raised, Trace, Action, Message, PaneInfo, list_panes, has_children,
  has_session, ◌>>=◌, ◌>>◌,
}
use winter_service_tmux.Orchestrator.Effects.{
  Acts, Acts-bind, Acts-if, Acts-pure, Does-ask, Does-act, Does-bind, Does-ask-answer,
}
use winter_service_tmux.Orchestrator.Context.{
  SessionContext, Seams, session, target_of, is_whole_scope, requested_services,
}
use winter_service_tmux.Orchestrator.Stop.{reap_each, down, down_existing}
use winter_service_tmux.Orchestrator.Start.{pane_map}

-- tmux has listed the shell `pid` for the pane of the service
abbrev pub IsPaneOf : Seams → SessionContext → ℕ → Service → Type 0
IsPaneOf seams ctx pid svc =
    (h : Trace) × (panes : List PaneInfo) × (seams.outside.panes_answer h (list_panes (session ctx))
      ≡ returned panes)
    × (lookup (target_of svc) (pane_map panes []) ≡ some pid)

-- a message, or the reaping of the pane of one of the services
abbrev pub OnlyReaps : Seams → SessionContext → List Service → Action → Type 0
OnlyReaps seams ctx services (Host.write message) = Unit
OnlyReaps seams ctx services (Host.reap_descendants (pid ∷ [])) =
    (svc : Service) × In svc services × IsPaneOf seams ctx pid svc
OnlyReaps seams ctx services _ = ⊥

reap_each-Acts :
    {P : Action → Type 0} (seams : Seams) (panes : Dict Text ℕ) (services : List Service)
    → All
        (λ svc.
          (pid : ℕ)
          → lookup (target_of svc) panes ≡ some pid
          → P (Host.reap_descendants (pid ∷ [])))
        services
    → Acts P (reap_each seams panes services)
unfolding reap_each
reap_each-Acts seams panes [] h = Acts-pure tt
reap_each-Acts seams panes (svc ∷ services) (hs, h) =
    elim (Option-cases (lookup (target_of svc) panes)) [
      | inl e ↦ rw (e, reap_each) (reap_each-Acts seams panes services h)
      | inr (pid, e) ↦
          rw (e, reap_each)
            (Acts-bind (Does-act _ _ (hs pid e)) (λ _. reap_each-Acts seams panes services h))
    ]

-- A `down` of some but not all services, of whatever the panes and processes are, adds no call but
-- messages and the reaping of panes that tmux lists for the requested services: the session is not
-- killed, and no other service's pane is touched.
pub down-OnlyReaps :
    (seams : Seams) (ctx : SessionContext) (requested : List Text)
    → is_whole_scope ctx requested ≡ false
    → Acts
        (OnlyReaps seams ctx (requested_services requested (ctx.services)))
        (down seams ctx requested)
unfolding down down_existing
down-OnlyReaps seams ctx requested partly = Acts-bind (Does-ask _ _) (λ exists.
    Acts-if exists
      (Does-bind (Does-ask-answer _ _) (λ panes (h, answered). rw partly (
        Acts-bind
          (reap_each-Acts seams (pane_map panes []) (requested_services requested (ctx.services)) (
            All-map (λ svc inside pid found. (svc, inside, (h, panes, answered, found)))
              (requested_services requested (ctx.services)) (All-In _)))
          (λ _. Acts-bind (Does-act _ _ tt) (λ _. Acts-pure 0)))))
      (Acts-bind (Does-act _ _ tt) (λ _. Acts-pure 0)))
