-- ===== src/Orchestrator/Restart.antt =====
-- `restart_services` of orchestrator_service.py: a preflight that only looks, then the restarts.
use winter_service_tmux.Prelude.{
  ℕ, ◌≡◌, refl, sym, ap, ◌∙◌, ◌≢◌, ◌⊎◌, inl, inr, false, some, List, [], ◌∷◌, ◌++◌, append_assoc,
  arith, nat_eq, Text, text_eq,
}
use winter_service_tmux.Prelude.Dict.{Dict, lookup, get_or}
use winter_service_tmux.Manifest.Model.{Service}
use winter_service_tmux.Orchestrator.Host.{
  M, Done, returned, raised, Trace, Action, did, actions, write, restarted, send_keys,
  reap_descendants, pure, act, ◌>>=◌, ◌>>◌, Failure, PaneInfo, list_panes, asked,
}
use winter_service_tmux.Orchestrator.Effects.{
  Acts, Acts-bind, Acts-pure, trail_of, Does-act, Quiet-trace, bind-cases,
}
use winter_service_tmux.Orchestrator.Trails.{Grows, Grows-trans, Trail-Grows, ReturnsAt}
use winter_service_tmux.Orchestrator.Context.{SessionContext, Seams, session, target_of, names_of}
use winter_service_tmux.Prelude.{In, All, subst}
use winter_service_tmux.Orchestrator.Environment.{launch_line}
use winter_service_tmux.Orchestrator.Lines.{HasLine}
use winter_service_tmux.Orchestrator.Start.{pane_map, missing_targets}
use winter_service_tmux.Orchestrator.Stop.{restart_plan, restart_each, restart_services}
use winter_service_tmux.Orchestrator.Plan.{
  IsListing, Serves, restart_plan-Serves, restart_plan-Acts,
}

-- the actions of the restarts, the last first
unfoldable pub restart_calls : Seams → SessionContext → Dict Text ℕ → List Service → List Action
unfolding session target_of launch_line
restart_calls seams ctx panes [] = []
restart_calls seams ctx panes (svc ∷ services) =
    restart_calls seams ctx panes services
    ++ (write (restarted (svc.name) (session ctx) (target_of svc))
        ∷ send_keys (session ctx) (target_of svc) (launch_line seams ctx false svc (svc.env))
        ∷ reap_descendants (get_or (target_of svc) 0 panes ∷ [])
        ∷ [])

abbrev pub Works : Seams → Type 0
Works seams = (h : Trace) (a : Action) → seams.outside.perform h a ≡ returned tt

raised≢returned : {A : Type 0} {e : Failure} {a : A} → raised e ≢ returned a
raised≢returned eq = ground arith

act_then :
    {B : Type 0} (seams : Seams) (a : Action) (f : Done → M B) (h : Trace)
    → Works seams
    → (act (seams.outside) a >>= f) h ≡ f tt (did a ∷ h)
unfolding ◌>>=◌ act
act_then seams a f h works = rw (works h a) refl

get_or-found :
    (name line : Text) (lines : Dict Text Text)
    → lookup name lines ≡ some line
    → get_or name [] lines ≡ line
unfolding lookup get_or
get_or-found name line [] e = absurd (cc e)
get_or-found name line ((other, value) ∷ lines) e = ground (arith, e, get_or-found name line lines)

restart_each-calls :
    (seams : Seams) (ctx : SessionContext) (lines : Dict Text Text) (panes : Dict Text ℕ)
    (services : List Service)
    → Works seams
    → All (HasLine seams ctx false lines) services
    → (h : Trace)
    → ((restart_each seams ctx lines panes services h).0 ≡ returned tt)
      × (actions ((restart_each seams ctx lines panes services h).1)
          ≡ restart_calls seams ctx panes services ++ actions h)
unfolding restart_each restart_calls pure actions
restart_each-calls seams ctx lines panes [] works own h = (refl, refl)
restart_each-calls seams ctx lines panes (svc ∷ services) works (line, own) h =
    let reap = reap_descendants (get_or (target_of svc) 0 panes ∷ []) in
    let keys = launch_line seams ctx false svc (svc.env) in
    let type = send_keys (session ctx) (target_of svc) keys in
    let tell = write (restarted (svc.name) (session ctx) (target_of svc)) in
    let (ok, eq) =
      restart_each-calls seams ctx lines panes services works own
        (did tell ∷ did type ∷ did reap ∷ h) in
    rw
      (
        act_then seams reap _ h works,
        get_or-found (svc.name) keys lines line,
        act_then seams type _ (did reap ∷ h) works,
        act_then seams tell _ (did type ∷ did reap ∷ h) works,
      )
      (
        ok,
        eq
            ∙ sym (
                append_assoc (restart_calls seams ctx panes services) (tell ∷ type ∷ reap ∷ [])
                  (actions h)),
      )

abbrev done_0 : Done → M ℕ
done_0 _ = pure 0

abbrev restart_with : Seams → SessionContext → List Service × Dict Text Text × Dict Text ℕ → M ℕ
restart_with seams ctx (services, lines, panes) =
    restart_each seams ctx lines panes services >> pure 0

restart_with-calls :
    (seams : Seams) (ctx : SessionContext) (services : List Service) (lines : Dict Text Text)
    (panes : Dict Text ℕ)
    → Works seams
    → All (HasLine seams ctx false lines) services
    → (h : Trace)
    → ((restart_with seams ctx (services, lines, panes) h).0 ≡ returned 0)
      × (actions ((restart_with seams ctx (services, lines, panes) h).1)
          ≡ restart_calls seams ctx panes services ++ actions h)
unfolding pure
restart_with-calls seams ctx services lines panes works own h =
    let (ok, calls) = restart_each-calls seams ctx lines panes services works own h in
    elim (bind-cases (restart_each seams ctx lines panes services) done_0 h) [
      | inl (e, h', done, eq) ↦ absurd (raised≢returned (sym (ap (λ end. end.0) done) ∙ ok))
      | inr (u, h', done, eq) ↦ (
        ap (λ end. end.0) eq,
        ap (λ end. actions (end.1)) eq ∙ sym (ap (λ end. actions (end.1)) done) ∙ calls,
      )
    ]

restart_each-Acts :
    (seams : Seams) (ctx : SessionContext) (lines : Dict Text Text) (panes : Dict Text ℕ)
    (services : List Service)
    → Acts (λ _. Unit) (restart_each seams ctx lines panes services)
unfolding restart_each
restart_each-Acts seams ctx lines panes [] = Acts-pure tt
restart_each-Acts seams ctx lines panes (svc ∷ services) = Acts-bind (Does-act _ _ tt) (λ _.
    Acts-bind (Does-act _ _ tt)
      (λ _. Acts-bind (Does-act _ _ tt) (λ _. restart_each-Acts seams ctx lines panes services)))

restart_with-Grows :
    (seams : Seams) (ctx : SessionContext) (services : List Service) (lines : Dict Text Text)
    (panes : Dict Text ℕ) (h : Trace)
    → Grows h ((restart_with seams ctx (services, lines, panes) h).1)
restart_with-Grows seams ctx services lines panes h =
    let restarts = restart_each-Acts seams ctx lines panes services in
    let acts : Acts (λ _. Unit) (restart_with seams ctx (services, lines, panes)) =
      Acts-bind restarts (λ _. Acts-pure 0) in
    Trail-Grows ((trail_of acts h).0)

-- how a restart of the services in the panes ends
abbrev pub Restarts :
    Seams → SessionContext → List Text → Trace → List Service → List PaneInfo → Type 0
Restarts seams ctx names h services infos =
    (names_of services ≡ names)
    × All (λ svc. In svc (ctx.services)) services
    × IsListing seams ctx h ((restart_services seams ctx names h).1) infos
    × (missing_targets (pane_map infos []) services ≡ [])
    × ((restart_services seams ctx names h).0 ≡ returned 0)
    × (actions ((restart_services seams ctx names h).1)
        ≡ restart_calls seams ctx (pane_map infos []) services ++ actions h)

-- Where every call succeeds, a restart of any names either is refused and has changed nothing and
-- said nothing, or it returns 0 and its calls are, service by service of the scope in the order of
-- the names, the reaping of the pane that tmux lists for the service during the restart, its launch line, of its own
-- environment and uncaptured, typed into that pane, and the message; each service has a pane.
pub restart_services-calls :
    (seams : Seams) (ctx : SessionContext) (names : List Text)
    → Works seams
    → (h : Trace)
    → ((e : Failure) × ((restart_services seams ctx names h).0 ≡ raised e)
        × (actions ((restart_services seams ctx names h).1) ≡ actions h))
      ⊎ ((services : List Service) × (infos : List PaneInfo) × Restarts seams ctx names h services
            infos)
unfolding restart_services
restart_services-calls seams ctx names works h =
    elim (bind-cases (restart_plan seams ctx names) (restart_with seams ctx) h) [
      | inl (e, h', planned, eq) ↦ inl (
        e,
        ap (λ end. end.0) eq,
        ap (λ end. actions (end.1)) eq ∙ Quiet-trace (restart_plan-Acts seams ctx names) planned,
      )
      | inr ((services, lines, panes), h', planned, eq) ↦
          let (served, inside, own, (infos, (h0, before, answered, after), same), found) =
            subst (λ end. ReturnsAt (Serves seams ctx names h) (end.0) (end.1)) planned
              ((restart_plan-Serves seams ctx names h).1) in
          let onward =
            Grows-trans (asked (list_panes (session ctx)) ∷ h0) h'
              ((restart_with seams ctx (services, lines, panes) h').1) after
              (restart_with-Grows seams ctx services lines panes h') in
          let (ok, calls) = restart_with-calls seams ctx services lines panes works own h' in
          inr (
            services,
            infos,
            (
              served,
              inside,
              (
                h0,
                before,
                answered,
                subst (λ end. Grows (asked (list_panes (session ctx)) ∷ h0) (end.1)) (sym eq)
                    onward,
              ),
              subst (λ p. missing_targets p services ≡ []) same found,
              ap (λ end. end.0) eq ∙ ok,
              ap (λ end. actions (end.1)) eq
                  ∙ calls
                  ∙ ap (λ t. restart_calls seams ctx panes services ++ t)
                      (Quiet-trace (restart_plan-Acts seams ctx names) planned)
                  ∙ ap (λ p. restart_calls seams ctx p services ++ actions h) same,
            ),
          )
    ]
