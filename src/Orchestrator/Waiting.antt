-- ===== src/Orchestrator/Waiting.antt =====
-- The waits of orchestrator_service.py make no calls but messages and sleeps.
use winter_service_tmux.Prelude.{ℕ, zero, suc, List, [], ◌∷◌, nat_eq, Text, text_eq}
use winter_service_tmux.Manifest.Model.{Seconds, Service}
use winter_service_tmux.Orchestrator.Host
use winter_service_tmux.Orchestrator.Host.{
  M, Done, Result, returned, raised, Trace, Action, Message, PaneInfo, list_panes, has_children,
  has_session, ◌>>=◌, ◌>>◌,
}
use winter_service_tmux.Orchestrator.Effects.{
  Acts, acts_rules, Acts-option, Acts-result, Acts-if, Acts-pure, Acts-throw, Does-bind,
  Does-attempt,
}
use winter_service_tmux.Orchestrator.Context.{SessionContext, Seams, Float}
use winter_service_tmux.Orchestrator.Wait.{
  poll, wait_for_dependency, await_patterns, await_dependencies,
}
use winter_service_tmux.Orchestrator.Start.{dependency_complaint}

module _ {P : Action → Type 0} (writes : (m : Message) → P (Host.write m))
    (sleeps : (d : Seconds) → P (Host.sleep d)) where
  poll-Acts :
      (seams : Seams) (pattern : Text) (deadline : Float) (fuel : ℕ)
      → Acts P (poll seams pattern deadline fuel)
  unfolding poll
  poll-Acts seams pattern deadline zero = search acts_rules
  poll-Acts seams pattern deadline (suc fuel) =
      search (acts_rules, sleeps, poll-Acts seams pattern deadline fuel) depth 10

  wait_for_dependency-Acts :
      (seams : Seams) (pattern : Text) → Acts P (wait_for_dependency seams pattern)
  unfolding wait_for_dependency
  wait_for_dependency-Acts seams pattern = search (acts_rules, writes, poll-Acts)

  await_patterns-Acts :
      (seams : Seams) (ctx : SessionContext) (patterns : List Text)
      → Acts P (await_patterns seams ctx patterns)
  unfolding await_patterns
  await_patterns-Acts seams ctx [] = search acts_rules
  await_patterns-Acts seams ctx (pattern ∷ patterns) =
      search (acts_rules, wait_for_dependency-Acts, await_patterns-Acts seams ctx patterns)

  await_dependencies-Acts :
      (seams : Seams) (ctx : SessionContext) (svc : Service)
      → Acts P (await_dependencies seams ctx svc)
  unfolding await_dependencies
  await_dependencies-Acts seams ctx svc = search (acts_rules, await_patterns-Acts)

  pub dependency_complaint-Acts :
      (seams : Seams) (ctx : SessionContext) (svc : Service)
      → Acts P (dependency_complaint seams ctx svc)
  unfolding dependency_complaint
  dependency_complaint-Acts seams ctx svc =
      Does-bind (Does-attempt (await_dependencies-Acts seams ctx svc)) (λ outcome _.
        Acts-result outcome (λ unmet. Acts-option unmet (Acts-pure _) (λ pattern. Acts-pure _))
          (λ e. Acts-if _ (Acts-pure _) (Acts-throw _)))
