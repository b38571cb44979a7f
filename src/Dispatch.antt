-- ===== src/Dispatch.antt =====
-- `_build_ctx`, `_build_workspace_ctx`, `_restart_batch` and `restart_selected` of
-- src/service_orchestrator/modules/orchestrate/dispatch_service.py. What the context builder
-- gives for a target is a parameter.
pub mod Writes
pub mod Preflight
pub mod Scopes
pub mod Logs
pub mod Codes
pub mod Matching
pub mod Covers
use winter_service_tmux.Prelude.{
  ℕ, zero, suc, ◌+◌, ◌-◌, ◌*◌, ◌/◌, ◌%◌, ◌≤◌, ◌<◌, ◌≡◌, refl, sym, ap, ◌∙◌, ◌≢◌, ◌↔◌, ◌⊎◌, inl, inr,
  Bool, true, false, not, ◌&&◌, ◌||◌, Option, none, some, List, [], ◌∷◌, ◌++◌, map, append_assoc,
  append-nil, arith, ltb, leb, nat_beq, if◌then◌else◌, Bool-cases, Option-cases, Eq, ◌==◌, ==_iff,
  ==_refl, nat_eq, Text, text_eq, text_beq, text_beq_iff, contains, contains-append, length, take,
  drop, filter, any, all, length-append, take-append-drop, length-drop, drop-append, filter-append,
  length-filter-le, All, All-append,
}
use winter_service_tmux.Prelude.Dict.{Dict}
use winter_service_tmux.Prelude.Str.{codes}
use winter_service_tmux.Orchestrator.Host.{
  M, Done, Message, Action, Result, returned, raised, Trace, actions, pure, throw, act, attempt,
  ◌>>=◌, ◌>>◌, Failure, write, scope_error, no_match, is_orchestrator_error,
}
use winter_service_tmux.Orchestrator.Effects.{
  Acts, Does, Does-bind, Does-act, Does-attempt, Does-pure, Acts-bind, Acts-pure, Acts-throw,
  Acts-if, Acts-result, Acts-option,
}
use winter_service_tmux.Orchestrator.Context.{SessionContext, Seams, names_of}
use winter_service_tmux.Orchestrator.Stop.{restart_services, preflight_restart_services}
use winter_service_tmux.Selector.{expand_workspace_patterns}

-- a scope to restart, its context and the names of its services
abbrev pub RestartTarget : Type 0
RestartTarget = Text × SessionContext × List Text

abbrev pub say : Seams → Message → M Done
say seams message = act seams.outside (write message)

-- `_build_ctx` and `_build_workspace_ctx`: the process environment becomes `env_vars`.
unfoldable pub build_ctx : Seams → (Text → Result SessionContext) → Text → M (Option SessionContext)
build_ctx seams contexts target = elim (contexts target) [
  | returned ctx ↦ pure (some (record ctx { env_vars = some seams.environ }))
  | raised e ↦ say seams (scope_error target e) >> pure none
]

unfoldable pub report_dead : Seams → List Text → M Done
report_dead seams [] = pure tt
report_dead seams (pattern ∷ dead) = say seams (no_match pattern) >> report_dead seams dead

abbrev is_nil : List Text → Bool
is_nil [] = true
is_nil (_ ∷ _) = false

abbrev pub matched_workspace : Seams → List Text → SessionContext → ℕ → M (ℕ × List RestartTarget)
matched_workspace seams patterns ctx rc =
    let (matched, dead) = expand_workspace_patterns patterns (names_of ctx.services) in
    if is_nil dead
    then pure (rc, (codes "workspace", ctx, matched) ∷ [])
    else report_dead seams dead >> pure (1, [])

-- the part of `restart_selected` for the workspace patterns
unfoldable pub workspace_target :
    Seams → (Text → Result SessionContext) → List Text → ℕ → M (ℕ × List RestartTarget)
unfolding build_ctx report_dead
workspace_target seams contexts [] rc = pure (rc, [])
workspace_target seams contexts (p ∷ patterns) rc = do
  ctx ← build_ctx seams contexts (codes "workspace")
  elim ctx [ none ↦ pure (1, []) | some ctx ↦ matched_workspace seams (p ∷ patterns) ctx rc ]

-- the loop over the environments
unfoldable pub env_targets :
    Seams
    → (Text → Result SessionContext)
    → Dict Text (List Text)
    → ℕ
    → List RestartTarget
    → M (ℕ × List RestartTarget)
unfolding build_ctx
env_targets seams contexts [] rc targets = pure (rc, targets)
env_targets seams contexts ((env, names) ∷ env_services) rc targets =
    let failed = env_targets seams contexts env_services 1 targets in
    (do
      ctx ← build_ctx seams contexts env
      elim ctx [
        | none ↦ failed
        | some ctx ↦
            env_targets seams contexts env_services rc (targets ++ ((env, ctx, names) ∷ []))
      ])

-- the failures of the orchestrator are printed; the code becomes 1
abbrev pub caught : Seams → Text → Failure → M ℕ
caught seams scope e =
    if is_orchestrator_error e then say seams (scope_error scope e) >> pure 1 else throw e

-- the preflight of every target; each failure is printed
unfoldable pub preflight_targets : Seams → List RestartTarget → ℕ → M ℕ
preflight_targets seams [] rc = pure rc
preflight_targets seams ((scope, ctx, names) ∷ targets) rc = do
  outcome ← attempt (preflight_restart_services seams ctx names)
  next ← (elim outcome [ returned _ ↦ pure rc | raised e ↦ caught seams scope e ])
  preflight_targets seams targets next

unfoldable pub restart_targets : Seams → List RestartTarget → ℕ → M ℕ
restart_targets seams [] rc = pure rc
restart_targets seams ((scope, ctx, names) ∷ targets) rc = do
  outcome ← attempt (restart_services seams ctx names)
  next ← (elim outcome [
    | returned result ↦ pure (if result == 0 then rc else result)
    | raised e ↦ caught seams scope e
  ])
  restart_targets seams targets next

-- all that `restart_selected` does before the first restart
unfoldable pub prepare :
    Seams
    → (Text → Result SessionContext)
    → List Text
    → Dict Text (List Text)
    → ℕ
    → M (ℕ × List RestartTarget)
unfolding workspace_target env_targets preflight_targets
prepare seams contexts workspace_pats env_services current_rc = do
  first ← workspace_target seams contexts workspace_pats current_rc
  all ← env_targets seams contexts env_services (first.0) (first.1)
  if all.0 == 0 then (do rc ← preflight_targets seams (all.1) 0; pure (rc, all.1)) else pure all

unfoldable pub restart_selected :
    Seams → (Text → Result SessionContext) → List Text → Dict Text (List Text) → ℕ → M ℕ
unfolding prepare restart_targets
restart_selected seams contexts workspace_pats env_services current_rc = do
  ready ← prepare seams contexts workspace_pats env_services current_rc
  if ready.0 == 0 then restart_targets seams (ready.1) 0 else pure (ready.0)
