-- ===== src/Tests/Scopes.antt =====
-- Cases of the dispatch service and of the launch order.
use winter_service_tmux.Prelude.{
  ℕ, zero, ◌≡◌, refl, inl, inr, true, false, none, List, [], ◌∷◌, nat_eq, Text, text_eq, text_beq,
  text_beq_iff, contains, filter, any, all, All,
}
use winter_service_tmux.Prelude.{Distinct, count}
use winter_service_tmux.Prelude.{◌++◌}
use winter_service_tmux.Pattern.{matches_pattern}
use winter_service_tmux.Prelude.Dict
use winter_service_tmux.Prelude.Str.{codes}
use winter_service_tmux.Manifest.Cycle.Walks.{Walk}
use winter_service_tmux.Orchestrator.Host
use winter_service_tmux.Orchestrator.Host.{Action, Trace, Result, returned, M}
use winter_service_tmux.Orchestrator.Effects.{Acts}
use winter_service_tmux.Orchestrator.Context.{SessionContext, names_of, is_whole_scope}
use winter_service_tmux.Orchestrator.Order.{topological_order}
use winter_service_tmux.Orchestrator.Order.Launch.{LocalNeeds, Follows, topological_order-Follows}
use winter_service_tmux.Orchestrator.Order.Validated.{validate-Follows}
use winter_service_tmux.Orchestrator.Start.{up}
use winter_service_tmux.Orchestrator.Stop.{down}
use winter_service_tmux.Orchestrator.Status.{EnvStatus}
use winter_service_tmux.Request.{split_scope_pattern}
use winter_service_tmux.Manifest.Validator.Clean.{validate-IsOrderly}
use winter_service_tmux.Manifest.Validator.Acyclic.{names}
use winter_service_tmux.Orchestrator.Order.Validated.{LocalNeeds-Needs}
use winter_service_tmux.Manifest.Cycle.Walks.{Walk-map}
use winter_service_tmux.Dispatch.Scopes.{
  on_target, down_target, matched_names, full_pattern, run_for_target, collect_for_target,
}
use winter_service_tmux.Dispatch.Codes.{
  injected, HasSucceeded, run_for_target-AllSucceeded, AreDocuments,
  collect_for_target-AreDocuments,
}
use winter_service_tmux.Dispatch.Matching.{
  ReapsMatching, on_target-unmatched, down_target-ReapsMatching,
}
use winter_service_tmux.Tests.Sessions.{seams, context, scopes, selection}
use winter_service_tmux.Tests.Manifests.{any_regex, manifest, manifest_is_clean}

partly :
    is_whole_scope (injected (seams true) (context [])) (
      matched_names
        (injected (seams true) (context []))
        (full_pattern (injected (seams true) (context [])) (codes "we*")))
    ≡ false
unfolding is_whole_scope matched_names any all contains text_beq
partly = refl

down_target-ReapsMatching_example :
    Acts
      (ReapsMatching (seams true) (context []) (codes "we*"))
      (down_target (seams true) scopes (codes "alpha/we*"))
unfolding split_scope_pattern text_beq
down_target-ReapsMatching_example =
    down_target-ReapsMatching (seams true) scopes (codes "alpha/we*") (codes "alpha") (codes "we*")
      (context []) refl refl partly

on_target-unmatched_example :
    on_target (seams true) scopes (λ ctx. up (seams true) ctx true) (codes "alpha/x*") []
    ≡ (returned 1, Host.did (Host.write (Host.no_match (codes "alpha/x*"))) ∷ [])
unfolding split_scope_pattern text_beq matches_pattern
on_target-unmatched_example =
    on_target-unmatched (seams true) scopes (codes "alpha/x*") (codes "alpha") (codes "x*")
      (context []) (λ ctx. up (seams true) ctx true) refl refl (refl, (refl, tt)) (λ h m. refl) []

abbrev call : SessionContext → Text → List Text → M ℕ
call ctx env names = down (seams true) ctx names

abbrev after_down : Trace
after_down = (run_for_target (seams true) scopes call selection 0 []).1

all_down : run_for_target (seams true) scopes call selection 0 [] ≡ (returned 0, after_down)
unfolding run_for_target Host.◌>>=◌ Host.pure Host.attempt down Host.ask all contains text_beq
    filter Dict.lookup Dict.insert Host.act
all_down = refl

run_for_target-AllSucceeded_example :
    (zero ≡ 0) × All (HasSucceeded (seams true) scopes call) selection
run_for_target-AllSucceeded_example =
    run_for_target-AllSucceeded (seams true) scopes call selection 0 [] after_down all_down

abbrev collected : Result (List EnvStatus × ℕ) × Trace
collected = collect_for_target (seams true) scopes selection [] 0 []

abbrev documents : List EnvStatus
documents = elim (collected.0) [ returned r ↦ r.0 | Host.raised _ ↦ [] ]

all_collected :
    collect_for_target (seams true) scopes selection [] 0 []
    ≡ (returned (documents, 0), collected.1)
unfolding collect_for_target Host.◌>>=◌ Host.pure Host.attempt Host.ask filter contains text_beq any
    Dict.lookup Dict.insert
all_collected = refl

collect_for_target-AreDocuments_example :
    (zero ≡ 0)
    × ((new : List EnvStatus) × (documents ≡ [] ++ new)
        × AreDocuments (seams true) scopes selection new)
collect_for_target-AreDocuments_example =
    collect_for_target-AreDocuments (seams true) scopes selection [] documents 0 [] (collected.1)
      all_collected

validate-Follows_example :
    ((n : Text)
      → count n (names_of (topological_order manifest.workspace_services (codes "workspace")))
        ≡ count n (names_of manifest.workspace_services))
    × Follows
        (codes "workspace")
        manifest.workspace_services
        []
        (names_of (topological_order manifest.workspace_services (codes "workspace")))
validate-Follows_example = validate-Follows any_regex manifest none manifest_is_clean

no_cycle : (u : Text) → ¬ Walk (LocalNeeds (codes "workspace") manifest.workspace_services) u u
no_cycle u w =
    let (_, _, (_, _, acyclic)) = validate-IsOrderly any_regex manifest none manifest_is_clean in
    acyclic u
      (Walk-map (λ x y. LocalNeeds-Needs (codes "workspace") manifest.workspace_services x y) w)

apart : Distinct (names_of manifest.workspace_services)
unfolding names_of text_beq
apart = (
  (λ i. elim i [ inl e ↦ absurd (cc ((text_beq_iff (codes "c") (codes "p")).1 e)) | inr n ↦ n ]),
  ((λ i. i), tt),
)

topological_order-Follows_example :
    ((n : Text)
      → count n (names_of (topological_order manifest.workspace_services (codes "workspace")))
        ≡ count n (names_of manifest.workspace_services))
    × Follows
        (codes "workspace")
        manifest.workspace_services
        []
        (names_of (topological_order manifest.workspace_services (codes "workspace")))
topological_order-Follows_example =
    topological_order-Follows (codes "workspace") manifest.workspace_services apart no_cycle

-- `c` goes first, although `p` is declared first.
launch_run :
    names_of (topological_order manifest.workspace_services (codes "workspace"))
    ≡ codes "c" ∷ codes "p" ∷ []
unfolding topological_order text_beq filter Dict.get_or Dict.insert Dict.lookup
launch_run = refl
