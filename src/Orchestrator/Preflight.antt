-- ===== src/Orchestrator/Preflight.antt =====
-- What the preflight of orchestrator_service.py leaves alone.
use winter_service_tmux.Prelude.{
  ◌≡◌, refl, inl, inr, Option-cases, Bool, Option, none, some, List, [], ◌∷◌, nat_eq, Text, text_eq,
}
use winter_service_tmux.Prelude.Dict.{Dict}
use winter_service_tmux.Manifest.Model.{Service}
use winter_service_tmux.Orchestrator.Host.{Action}
use winter_service_tmux.Orchestrator.Effects.{
  Does, Does-pure, Does-throw, Acts, acts_rules, Acts-bind, Acts-option, Acts-if, Acts-pure,
  Acts-throw, Does-ask,
}
use winter_service_tmux.Orchestrator.Context.{SessionContext, Seams}
use winter_service_tmux.Orchestrator.Environment.{
  service_environment, env_fault, runtime_environment, resolved_mapping, launch_lines_for,
}

module _ {P : Action → Type 0} where
  pub service_environment-own :
      (svc : Service) → Does P (λ mapping. mapping ≡ svc.env) (service_environment svc)
  unfolding service_environment
  service_environment-own svc = elim (Option-cases (env_fault (svc.env))) [
    | inl e ↦ rw (e, service_environment) (Does-pure _ refl)
    | inr (fault, e) ↦ rw (e, service_environment) (Does-throw _)
  ]

  pub service_environment-Acts : (svc : Service) → Acts P (service_environment svc)
  unfolding service_environment
  service_environment-Acts svc =
      Acts-option (env_fault (svc.env)) (Acts-pure _) (λ fault. Acts-throw _)

  pub runtime_environment-Acts :
      (seams : Seams) (ctx : SessionContext) (resolve_commands : Bool) (cwd : Text) (file : Bool)
      → Acts P (runtime_environment seams ctx resolve_commands cwd file)
  unfolding runtime_environment
  runtime_environment-Acts seams ctx resolve_commands cwd file =
      Acts-bind (Acts-option (ctx.inject_scope) (Acts-pure _) (λ scope. Does-ask _ _)) (λ effective.
        Acts-if file (Acts-option (ctx.env_file_path) (Acts-pure _) (λ path. Does-ask _ _))
          (Acts-pure _))

  pub resolved_mapping-Acts :
      (seams : Seams) (ctx : SessionContext) (svc : Service) (resolve_commands : Bool)
      (base : Option (Dict Text Text)) (mapping : Dict Text Text)
      → Acts P (resolved_mapping seams ctx svc resolve_commands base mapping)
  unfolding resolved_mapping
  resolved_mapping-Acts seams ctx svc resolve_commands base [] = search acts_rules
  resolved_mapping-Acts seams ctx svc resolve_commands (some base) (entry ∷ mapping) =
      search acts_rules
  resolved_mapping-Acts seams ctx svc resolve_commands none (entry ∷ mapping) =
      search (acts_rules, runtime_environment-Acts)

  pub launch_lines_for-Acts :
      (seams : Seams) (ctx : SessionContext) (capture_logs : Bool) (services : List Service)
      (lines : Dict Text Text)
      → Acts P (launch_lines_for seams ctx capture_logs services lines)
  unfolding launch_lines_for
  launch_lines_for-Acts seams ctx capture_logs [] lines = search acts_rules
  launch_lines_for-Acts seams ctx capture_logs (svc ∷ services) lines = search (
    acts_rules,
    service_environment-Acts,
    resolved_mapping-Acts,
    launch_lines_for-Acts seams ctx capture_logs services,
  )
