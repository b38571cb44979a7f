-- ===== src/Orchestrator/Partial.antt =====
-- What a partial `up` of orchestrator_service.py on a running session touches.
use winter_service_tmux.Prelude.{
  ℕ, ◌≡◌, refl, sym, ◌∙◌, inl, inr, Bool, true, false, some, List, [], ◌∷◌, arith, Bool-cases,
  Option-cases, ◌==◌, ==_iff, nat_eq, Text, text_eq,
}
use winter_service_tmux.Prelude.Dict.{Dict, lookup, insert, lookup-insert}
use winter_service_tmux.Manifest.Model.{Service}
use winter_service_tmux.Orchestrator.Host
use winter_service_tmux.Orchestrator.Host.{
  M, Result, returned, raised, Trace, PaneInfo, list_panes, asked, has_session, ◌>>=◌, ◌>>◌,
}
use winter_service_tmux.Orchestrator.Effects.{Trail, Trail-join, looked, start}
use winter_service_tmux.Orchestrator.Trails.{
  Grows-trans, Trail-Grows, Runs, Runs-bind, Runs-any, Runs-ask, Runs-act, Runs-if, Runs-Acts,
  Whatever,
}
use winter_service_tmux.Orchestrator.Context.{
  SessionContext, Seams, session, target_of, is_whole_scope, requested_services, target_services,
}
use winter_service_tmux.Orchestrator.Order.{topological_order}
use winter_service_tmux.Orchestrator.Environment.{launch_lines_for}
use winter_service_tmux.Orchestrator.Preflight.{launch_lines_for-Acts}
use winter_service_tmux.Orchestrator.Start.{pane_map, launched_pids, up_partial_existing, up}
use winter_service_tmux.Orchestrator.Selection.{topological_order-In}
use winter_service_tmux.Orchestrator.Idle.{
  OnlyStarts, AreShown, AreShown-Grows, AreReady, AreReady-Grows, launchable-AreReady,
  launch_all-Runs,
}
use winter_service_tmux.Orchestrator.Retries.{finish-Runs}

insert-AreShown :
    (seams : Seams) (ctx : SessionContext) (h : Trace) (panes d : Dict Text ℕ) (svc : Service)
    (pid : ℕ)
    → AreShown seams ctx h panes
    → lookup (target_of svc) panes ≡ some pid
    → AreShown seams ctx h d
    → AreShown seams ctx h (insert (target_of svc) pid d)
insert-AreShown seams ctx h panes d svc pid shown found old other p e =
    elim (Bool-cases (target_of svc == target_of other)) [
      | inl same ↦
          let e' : some pid ≡ some p =
            sym (rw (lookup-insert (target_of svc) (target_of other) pid d, same) refl) ∙ e in
          let t : target_of svc ≡ target_of other =
            (==_iff (target_of svc) (target_of other)).0 same in
          shown other p (rw (← t) (found ∙ e'))
      | inr differ ↦
          old other p
            (sym (rw (lookup-insert (target_of svc) (target_of other) pid d, differ) refl) ∙ e)
    ]

launched_pids-AreShown :
    (seams : Seams) (ctx : SessionContext) (h : Trace) (panes : Dict Text ℕ)
    (services : List Service) (d : Dict Text ℕ)
    → AreShown seams ctx h panes
    → AreShown seams ctx h d
    → AreShown seams ctx h (launched_pids panes services d)
unfolding launched_pids
launched_pids-AreShown seams ctx h panes [] d shown old = old
launched_pids-AreShown seams ctx h panes (svc ∷ services) d shown old =
    elim (Option-cases (lookup (target_of svc) panes)) [
      | inl e ↦
          rw (e, launched_pids) (launched_pids-AreShown seams ctx h panes services d shown old)
      | inr (pid, e) ↦
          rw (e, launched_pids)
            (launched_pids-AreShown seams ctx h panes services (insert (target_of svc) pid d) shown
              (insert-AreShown seams ctx h panes d svc pid shown e old))
    ]

empty-AreShown : (seams : Seams) (ctx : SessionContext) (h : Trace) → AreShown seams ctx h []
unfolding lookup
empty-AreShown seams ctx h svc pid e = ground arith

up_partial_existing-OnlyStarts :
    (seams : Seams) (ctx : SessionContext) (services : List Service) (retry : Bool) (h : Trace)
    → Runs (OnlyStarts seams ctx services) Whatever (up_partial_existing seams ctx services retry) h
unfolding up_partial_existing
up_partial_existing-OnlyStarts seams ctx services retry h =
    Runs-bind
      (λ h1 infos.
        (h1 ≡ asked (list_panes (session ctx)) ∷ h)
        × (seams.outside.panes_answer h (list_panes (session ctx)) ≡ returned infos))
      Whatever _ _ h (Runs-ask _ _ h)
      (λ infos h1 t1 (last, answered).
        let panes = pane_map infos [] in
        let shown : AreShown seams ctx h1 panes =
          λ svc pid e. (h, infos, ([], last), answered, e) in
        Runs-bind (AreReady seams ctx services) Whatever _ _ h1
          (launchable-AreReady seams ctx services panes (topological_order services (ctx.env)) h1
            shown (topological_order-In services (ctx.env)))
          (λ stopped h2 t2 ready.
            Runs-bind Whatever Whatever (launch_lines_for seams ctx true stopped []) _ h2
              (Runs-Acts {S = λ _. ⊥} (λ g a p. absurd p)
                (launch_lines_for-Acts seams ctx true stopped []) h2)
              (λ lines h3 t3 u3. Runs-bind _ Whatever _ _ h3 (Runs-act _ _ h3 tt) (λ u4 h4 t4 e4.
                let g4 = Grows-trans h2 h3 h4 (Trail-Grows t3) (Trail-Grows t4) in
                Runs-bind Whatever Whatever _ _ h4
                  (launch_all-Runs seams ctx services lines stopped h4
                    (AreReady-Grows seams ctx services h2 h4 stopped g4 ready))
                  (λ done h5 t5 u5.
                    let g5 =
                      Grows-trans h1 h4 h5 (Grows-trans h1 h2 h4 (Trail-Grows t2) g4)
                        (Trail-Grows t5) in
                    let shown5 = AreShown-Grows seams ctx h1 h5 panes g5 shown in
                    Runs-if Whatever done _ _ h5
                      (finish-Runs seams ctx retry (launched_pids panes stopped []) services lines
                        h5
                        (launched_pids-AreShown seams ctx h5 panes stopped [] shown5
                          (empty-AreShown seams ctx h5)))
                      (Runs-any 1 h5))))))

-- An `up` of some but not all services whose session is found running makes no calls that change
-- anything but messages, waits and the log directory, except that it types into panes of the
-- requested services, and reaps there for a retry. Before keys are typed, earlier calls of the
-- same `up` have listed the pane and seen its shell without a child; before a retry reaps a pane,
-- the last call made was such a look. Services that run and services that are not requested are
-- left alone, with retries or without.
pub up-OnlyStarts :
    (seams : Seams) (ctx : SessionContext) (retry : Bool) (requested : List Text)
    → is_whole_scope ctx requested ≡ false
    → seams.outside.flag_answer [] (has_session (session ctx)) ≡ returned true
    → Trail
        (OnlyStarts seams ctx (requested_services requested (ctx.services)))
        []
        ((up seams ctx retry requested []).1)
unfolding up target_services ◌>>=◌ Host.ask
up-OnlyStarts seams ctx retry requested partly exists =
    rw (exists, partly)
      (Trail-join (looked start) (
        (up_partial_existing-OnlyStarts seams ctx (requested_services requested (ctx.services))
          retry (asked (has_session (session ctx)) ∷ [])).0))
