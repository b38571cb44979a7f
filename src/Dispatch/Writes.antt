-- ===== src/Dispatch/Writes.antt =====
-- What the steps before the first restart of `restart_selected` of dispatch_service.py do: they
-- only write messages.
use winter_service_tmux.Prelude.{
  ℕ, ◌≡◌, refl, Bool, true, false, List, [], ◌∷◌, nat_eq, Text, text_eq,
}
use winter_service_tmux.Prelude.Dict.{Dict}
use winter_service_tmux.Orchestrator.Host.{
  Action, Result, returned, raised, Failure, write, is_orchestrator_error,
}
use winter_service_tmux.Orchestrator.Effects.{
  Acts, Does, Does-bind, Does-act, Does-pure, Does-throw, Acts-bind, Acts-pure, Acts-if,
  Acts-option,
}
use winter_service_tmux.Orchestrator.Context.{SessionContext, Seams}
use winter_service_tmux.Orchestrator.Plan.{restart_plan-Acts}
use winter_service_tmux.Orchestrator.Stop.{preflight_restart_services}
use winter_service_tmux.Dispatch.{
  RestartTarget, caught, build_ctx, report_dead, workspace_target, env_targets,
}

abbrev pub IsWrite : Action → Type 0
IsWrite (write message) = Unit
IsWrite _ = ⊥

pub preflight-Acts :
    {P : Action → Type 0} (seams : Seams) (ctx : SessionContext) (names : List Text)
    → Acts P (preflight_restart_services seams ctx names)
unfolding preflight_restart_services
preflight-Acts seams ctx names = Does-bind (restart_plan-Acts seams ctx names) (λ _ _. Acts-pure tt)

build_ctx-Acts :
    (seams : Seams) (contexts : Text → Result SessionContext) (target : Text)
    → Acts IsWrite (build_ctx seams contexts target)
unfolding build_ctx
build_ctx-Acts seams contexts target = from (contexts target) refl
  where
    from :
        (r : Result SessionContext)
        → contexts target ≡ r
        → Acts IsWrite (build_ctx seams contexts target)
    from (returned ctx) e = rw (e, build_ctx) (Acts-pure _)
    from (raised f) e = rw (e, build_ctx) (Acts-bind (Does-act _ _ tt) (λ _. Acts-pure _))

report_dead-Acts : (seams : Seams) (dead : List Text) → Acts IsWrite (report_dead seams dead)
unfolding report_dead
report_dead-Acts seams [] = Acts-pure tt
report_dead-Acts seams (p ∷ dead) = Acts-bind (Does-act _ _ tt) (λ _. report_dead-Acts seams dead)

pub workspace_target-Acts :
    (seams : Seams) (contexts : Text → Result SessionContext) (patterns : List Text) (rc : ℕ)
    → Acts IsWrite (workspace_target seams contexts patterns rc)
unfolding workspace_target
workspace_target-Acts seams contexts [] rc = Acts-pure _
workspace_target-Acts seams contexts (p ∷ patterns) rc =
    Acts-bind (build_ctx-Acts seams contexts _) (λ ctx.
      Acts-option ctx (Acts-pure _)
        (λ c. Acts-if _ (Acts-pure _) (Acts-bind (report_dead-Acts seams _) (λ _. Acts-pure _))))

pub env_targets-Acts :
    (seams : Seams) (contexts : Text → Result SessionContext) (env_services : Dict Text (List Text))
    (rc : ℕ) (targets : List RestartTarget)
    → Acts IsWrite (env_targets seams contexts env_services rc targets)
unfolding env_targets
env_targets-Acts seams contexts [] rc targets = Acts-pure _
env_targets-Acts seams contexts ((env, names) ∷ env_services) rc targets =
    Acts-bind (build_ctx-Acts seams contexts env) (λ ctx.
      Acts-option ctx (env_targets-Acts seams contexts env_services 1 targets)
        (λ c. env_targets-Acts seams contexts env_services rc _))

pub caught-fails :
    {Q : ℕ → Type 0} (seams : Seams) (scope : Text) (e : Failure)
    → Q 1
    → Does IsWrite Q (caught seams scope e)
caught-fails {Q} seams scope e q = go (is_orchestrator_error e) refl
  where
    go : (b : Bool) → is_orchestrator_error e ≡ b → Does IsWrite Q (caught seams scope e)
    go true h = rw h (Does-bind (Does-act _ _ tt) (λ _ _. Does-pure _ q))
    go false h = rw h (Does-throw _)
