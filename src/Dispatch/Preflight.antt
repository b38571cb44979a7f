-- ===== src/Dispatch/Preflight.antt =====
-- No scope is restarted before every scope has passed its preflight: `restart_selected` of
-- dispatch_service.py.
use winter_service_tmux.Prelude.{
  ℕ, zero, suc, ◌≡◌, refl, sym, ap, ◌∙◌, ◌⊎◌, inl, inr, false, List, [], ◌∷◌, ◌++◌, arith,
  if◌then◌else◌, Bool-cases, ◌==◌, ==_iff, nat_eq, Text, text_eq, all, All,
}
use winter_service_tmux.Prelude.Dict.{Dict}
use winter_service_tmux.Orchestrator.Host.{
  M, Done, Action, Result, returned, raised, Trace, actions, pure, ◌>>=◌, attempt,
}
use winter_service_tmux.Orchestrator.Trails.{
  Grows, Grows-trans, Trail-Grows, ReturnsAt, Runs, Runs-bind, Runs-pure, Runs-Acts, Runs-Does,
  Runs-imp, Whatever,
}
use winter_service_tmux.Prelude.{subst}
use winter_service_tmux.Orchestrator.Effects.{Does, trail_of, Trail-actions, Does-pure, bind-cases}
use winter_service_tmux.Orchestrator.Context.{SessionContext, Seams}
use winter_service_tmux.Orchestrator.Stop.{preflight_restart_services}
use winter_service_tmux.Dispatch.{
  RestartTarget, caught, preflight_targets, restart_targets, prepare, restart_selected,
}
use winter_service_tmux.Dispatch.Covers.{CoversAll, prepare-CoversAll}
use winter_service_tmux.Dispatch.Writes.{
  IsWrite, preflight-Acts, workspace_target-Acts, env_targets-Acts, caught-fails,
}

-- the scope's plan has been resolved and its panes found, between two points of the run
abbrev pub HasPassed : Seams → Trace → Trace → RestartTarget → Type 0
HasPassed seams first last (scope, ctx, names) =
    (h : Trace) × (h' : Trace) × Grows first h
    × (preflight_restart_services seams ctx names h ≡ (returned tt, h'))
    × Grows h' last

abbrev Writes : Trace → Action → Type 0
Writes h a = IsWrite a

-- a code of 0 means that it was 0 and that every target has passed
abbrev pub Cleared : Seams → Trace → List RestartTarget → ℕ → Trace → ℕ → Type 0
Cleared seams first targets rc last rc' =
    rc' ≡ 0 → (rc ≡ 0) × All (HasPassed seams first last) targets

attempted :
    (seams : Seams) (ctx : SessionContext) (names : List Text) (h : Trace)
    → Runs Writes
        (λ h' outcome. preflight_restart_services seams ctx names h ≡ (outcome, h'))
        (attempt (preflight_restart_services seams ctx names))
        h
unfolding attempt
attempted seams ctx names h = ((trail_of (preflight-Acts seams ctx names) h).0, refl)

settle :
    (seams : Seams) (scope : Text) (ctx : SessionContext) (names : List Text) (rc : ℕ)
    (outcome : Result Done) (h h' : Trace)
    → preflight_restart_services seams ctx names h ≡ (outcome, h')
    → Does IsWrite
        (λ next.
          next ≡ 0 → (rc ≡ 0) × (preflight_restart_services seams ctx names h ≡ (returned tt, h')))
        (elim outcome [ returned _ ↦ pure rc | raised e ↦ caught seams scope e ])
settle seams scope ctx names rc (returned u) h h' ended = Does-pure rc (λ e. (e, ended))
settle seams scope ctx names rc (raised f) h h' ended =
    caught-fails seams scope f (λ e. absurd (omega (arith, e)))

preflight_targets-Cleared :
    (seams : Seams) (first : Trace) (targets : List RestartTarget) (rc : ℕ) (h : Trace)
    → Grows first h
    → Runs Writes (Cleared seams first targets rc) (preflight_targets seams targets rc) h
unfolding preflight_targets
preflight_targets-Cleared seams first [] rc h g =
    Runs-pure (Cleared seams first [] rc) rc h (λ e. (e, tt))
preflight_targets-Cleared seams first ((scope, ctx, names) ∷ targets) rc h g =
    let goal = Cleared seams first ((scope, ctx, names) ∷ targets) rc in
    Runs-bind (λ h' outcome. preflight_restart_services seams ctx names h ≡ (outcome, h')) goal _ _
      h (attempted seams ctx names h)
      (λ outcome h1 t1 ended.
        Runs-bind
          (λ _ next.
            next ≡ 0
            → (rc ≡ 0) × (preflight_restart_services seams ctx names h ≡ (returned tt, h1)))
          goal _ _ h1
          (Runs-Does (λ _ _ p. p) (settle seams scope ctx names rc outcome h h1 ended) h1)
          (λ next h2 t2 passed.
            let g2 = Grows-trans h h1 h2 (Trail-Grows t1) (Trail-Grows t2) in
            Runs-imp (Cleared seams first targets next) goal (preflight_targets seams targets next)
              h2
              (preflight_targets-Cleared seams first targets next h2 (Grows-trans first h h2 g g2))
              (λ last rc' t3 cleared e.
                let (zero_next, all) = cleared e in
                let (zero_rc, run) = passed zero_next in
                let g3 = Grows-trans h1 h2 last (Trail-Grows t2) (Trail-Grows t3) in
                (zero_rc, ((h, h1, g, run, g3), all)))))

-- What is ready: a code of 0 comes with targets that have all passed.
abbrev pub IsReady : Seams → Trace → Trace → ℕ × List RestartTarget → Type 0
IsReady seams first last (rc, targets) = rc ≡ 0 → All (HasPassed seams first last) targets

prepare-IsReady :
    (seams : Seams) (contexts : Text → Result SessionContext) (workspace_pats : List Text)
    (env_services : Dict Text (List Text)) (current_rc : ℕ) (h : Trace)
    → Runs Writes
        (IsReady seams h)
        (prepare seams contexts workspace_pats env_services current_rc)
        h
unfolding prepare
prepare-IsReady seams contexts workspace_pats env_services current_rc h =
    Runs-bind Whatever (IsReady seams h) _ _ h
      (Runs-Acts (λ _ _ p. p) (workspace_target-Acts seams contexts workspace_pats current_rc) h)
      (λ first h1 t1 _.
        Runs-bind Whatever (IsReady seams h) _ _ h1
          (Runs-Acts (λ _ _ p. p) (env_targets-Acts seams contexts env_services (first.0) (first.1))
            h1)
          (λ all h2 t2 _. either all h2 (Grows-trans h h1 h2 (Trail-Grows t1) (Trail-Grows t2))))
  where
    either :
        (all : ℕ × List RestartTarget) (h2 : Trace)
        → Grows h h2
        → Runs Writes
            (IsReady seams h)
            (if all.0 == 0
              then (do rc ← preflight_targets seams (all.1) 0; pure (rc, all.1))
              else pure all)
            h2
    either (zero, targets) h2 g =
        Runs-bind (Cleared seams h targets 0) (IsReady seams h) _ _ h2
          (preflight_targets-Cleared seams h targets 0 h2 g)
          (λ rc h3 t3 cleared. Runs-pure (IsReady seams h) (rc, targets) h3 (λ e. (cleared e).1))
    either (suc n, targets) h2 g =
        let test : (suc n == 0) ≡ false = ground arith in
        rw test (Runs-pure (IsReady seams h) (suc n, targets) h2 (λ e. absurd (omega (arith, e))))

abbrev go_on : Seams → ℕ × List RestartTarget → M ℕ
go_on seams ready = if ready.0 == 0 then restart_targets seams (ready.1) 0 else pure (ready.0)

stopped :
    (seams : Seams) (rc : ℕ) (targets : List RestartTarget) (h : Trace)
    → (rc == 0) ≡ false
    → go_on seams (rc, targets) h ≡ (returned rc, h)
unfolding pure
stopped seams rc targets h other = rw other refl

-- A restart of any selection over several scopes either only writes messages, or it restarts
-- exactly the scopes selected, and between its start and the first restart it has only written
-- messages and run, with success, the preflight of every scope: the workspace, where it was asked for, with the services that
-- its patterns match, and then each environment with its services, in their order, each in the
-- context built for it.
pub restart_selected-HasPassed :
    (seams : Seams) (contexts : Text → Result SessionContext) (workspace_pats : List Text)
    (env_services : Dict Text (List Text)) (current_rc : ℕ) (h : Trace)
    → ((new : List Action) × (actions
            ((restart_selected seams contexts workspace_pats env_services current_rc h).1)
          ≡ new ++ actions h)
        × All IsWrite new)
      ⊎ ((targets : List RestartTarget) × (h' : Trace) × (new : List Action) × (restart_selected
              seams contexts workspace_pats env_services current_rc h
            ≡ restart_targets seams targets 0 h')
          × CoversAll seams contexts workspace_pats env_services targets
          × All (HasPassed seams h h') targets
          × (actions h' ≡ new ++ actions h)
          × All IsWrite new)
unfolding restart_selected
restart_selected-HasPassed seams contexts workspace_pats env_services current_rc h =
    let (trail, ready) = prepare-IsReady seams contexts workspace_pats env_services current_rc h in
    let (new, wrote, only) = Trail-actions trail in
    elim (bind-cases (prepare seams contexts workspace_pats env_services current_rc) (go_on seams)
      h) [
        | inl (e, h', prepared, eq) ↦ inl (
          new,
          ap (λ end. actions (end.1)) eq ∙ sym (ap (λ end. actions (end.1)) prepared) ∙ wrote,
          only,
        )
        | inr ((rc, targets), h', prepared, eq) ↦
            let wrote' : actions h' ≡ new ++ actions h =
              sym (ap (λ end. actions (end.1)) prepared) ∙ wrote in
            elim (Bool-cases (rc == 0)) [
              | inl zero_rc ↦ inr (
                targets,
                h',
                new,
                eq ∙ rw zero_rc refl,
                prepare-CoversAll seams contexts workspace_pats env_services current_rc h h'
                    (rc, targets) prepared ((==_iff rc 0).0 zero_rc),
                subst (λ end. ReturnsAt (IsReady seams h) (end.0) (end.1)) prepared ready
                    ((==_iff rc 0).0 zero_rc),
                wrote',
                only,
              )
              | inr other ↦ inl (
                new,
                ap (λ end. actions (end.1)) (eq ∙ stopped seams rc targets h' other) ∙ wrote',
                only,
              )
            ]
      ]
