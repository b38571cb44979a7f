-- ===== src/Dispatch/Scopes.antt =====
-- `up`, `down`, `_resolve_service_segment`, `_run_for_target`, the collection of status documents
-- and the restarts of single scopes of
-- src/service_orchestrator/modules/orchestrate/dispatch_service.py.
use winter_service_tmux.Prelude.{
  ℕ, true, Option, none, some, List, [], ◌∷◌, ◌++◌, if◌then◌else◌, ◌==◌, nat_eq, Text, text_eq,
  filter,
}
use winter_service_tmux.Prelude.Dict.{Dict, insert}
use winter_service_tmux.Prelude.Str.{codes}
use winter_service_tmux.Orchestrator.Host.{
  M, Result, returned, raised, pure, attempt, ◌>>=◌, ◌>>◌, Failure, no_match,
}
use winter_service_tmux.Orchestrator.Context.{SessionContext, Seams, names_of}
use winter_service_tmux.Orchestrator.Start.{up}
use winter_service_tmux.Orchestrator.Stop.{down, restart_services}
use winter_service_tmux.Orchestrator.Status.{EnvStatus, status_env_document}
use winter_service_tmux.Pattern.{matches_pattern}
use winter_service_tmux.Request.{split_scope_pattern}
use winter_service_tmux.Selector.{expand_workspace_patterns}
use winter_service_tmux.Dispatch.{build_ctx, report_dead, say, caught}

abbrev pub Contexts : Type 0
Contexts = Text → Result SessionContext

-- the names of the services that the pattern of a scope matches
unfoldable pub matched_names : SessionContext → Text → List Text
unfolding matches_pattern names_of filter
matched_names ctx full_pattern =
    filter (λ name. matches_pattern ctx.env name full_pattern) (names_of ctx.services)

abbrev pub full_pattern : SessionContext → Text → Text
full_pattern ctx svc_pattern = ctx.env ++ (b'/' ∷ svc_pattern)

-- `_resolve_service_segment`: the names, and the exit code
unfoldable pub resolve_service_segment : Seams → SessionContext → Option Text → M (List Text × ℕ)
unfolding matched_names
resolve_service_segment seams ctx none = pure ([], 0)
resolve_service_segment seams ctx (some svc_pattern) =
    elim (matched_names ctx (full_pattern ctx svc_pattern)) [
      | [] ↦ say seams (no_match (full_pattern ctx svc_pattern)) >> pure ([], 1)
      | name ∷ names ↦ pure (name ∷ names, 0)
    ]

-- what `up` and `down` share: the context, the services, and the call, where an OrchestratorError
-- is printed
unfoldable pub on_target : Seams → Contexts → (SessionContext → List Text → M ℕ) → Text → M ℕ
unfolding split_scope_pattern build_ctx resolve_service_segment
on_target seams contexts call target = do
  let (scope, svc_pattern) = split_scope_pattern target
  found ← build_ctx seams contexts scope
  elim found [
    | none ↦ pure 1
    | some ctx ↦ (do
      resolved ← resolve_service_segment seams ctx svc_pattern
      let (services, rc) = resolved
      if rc == 0
          then (do
            outcome ← attempt (call ctx services)
            elim outcome [ returned result ↦ pure result | raised e ↦ caught seams scope e ])
          else pure rc)
  ]

unfoldable pub up_target : Seams → Contexts → Text → M ℕ
unfolding on_target up
up_target seams contexts target = on_target seams contexts (λ ctx. up seams ctx true) target

unfoldable pub down_target : Seams → Contexts → Text → M ℕ
unfolding on_target down
down_target seams contexts target = on_target seams contexts (down seams) target

-- `_run_for_target`: the last exit code that is not 0
unfoldable pub run_for_target :
    Seams → Contexts → (SessionContext → Text → List Text → M ℕ) → Dict Text (List Text) → ℕ → M ℕ
unfolding build_ctx
run_for_target seams contexts invoke [] rc = pure rc
run_for_target seams contexts invoke ((env, svc_names) ∷ env_services) rc = do
  found ← build_ctx seams contexts env
  next ← (elim found [
    | none ↦ pure 1
    | some ctx ↦ (do
      outcome ← attempt (invoke ctx env svc_names)
      elim outcome [
        | returned result ↦ pure (if result == 0 then rc else result)
        | raised e ↦ caught seams env e
      ])
  ])
  run_for_target seams contexts invoke env_services next

unfoldable pub restart_env_services : Seams → Contexts → Dict Text (List Text) → ℕ → M ℕ
unfolding run_for_target restart_services
restart_env_services seams contexts env_services rc =
    run_for_target seams contexts (λ ctx env. restart_services seams ctx) env_services rc

-- a failure that is printed leaves no document and the code 1
abbrev pub no_document : Seams → Text → Failure → List EnvStatus → M (List EnvStatus × ℕ)
no_document seams env e docs = do rc ← caught seams env e; pure (docs, rc)

-- one environment of `_collect_for_target`
unfoldable pub collect_one :
    Seams → Contexts → Text → List Text → List EnvStatus → ℕ → M (List EnvStatus × ℕ)
unfolding build_ctx status_env_document
collect_one seams contexts env svc_names docs rc = do
  found ← build_ctx seams contexts env
  elim found [
    | none ↦ pure (docs, 1)
    | some ctx ↦ (do
      outcome ← attempt (status_env_document seams ctx svc_names)
      elim outcome [
        | returned doc ↦ pure (docs ++ (doc ∷ []), rc)
        | raised e ↦ no_document seams env e docs
      ])
  ]

-- `_collect_for_target`, with the documents and the code so far
unfoldable pub collect_for_target :
    Seams → Contexts → Dict Text (List Text) → List EnvStatus → ℕ → M (List EnvStatus × ℕ)
unfolding collect_one
collect_for_target seams contexts [] docs rc = pure (docs, rc)
collect_for_target seams contexts ((env, svc_names) ∷ env_services) docs rc = do
  next ← collect_one seams contexts env svc_names docs rc
  collect_for_target seams contexts env_services (next.0) (next.1)

unfoldable pub every_service : List Text → Dict Text (List Text) → Dict Text (List Text)
unfolding insert
every_service [] d = d
every_service (env ∷ envs) d = every_service envs (insert env [] d)

unfoldable pub collect_status_all_envs : Seams → Contexts → List Text → ℕ → M (List EnvStatus × ℕ)
unfolding collect_for_target every_service
collect_status_all_envs seams contexts envs rc =
    collect_for_target seams contexts (every_service envs []) [] rc

-- the workspace context and the services its patterns match, or the exit code
unfoldable pub with_workspace :
    {A : Type 0} → Seams → Contexts → List Text → A → (SessionContext → List Text → M A) → M A
unfolding build_ctx expand_workspace_patterns report_dead
with_workspace seams contexts patterns refused call = do
  found ← build_ctx seams contexts (codes "workspace")
  elim found [
    | none ↦ pure refused
    | some ctx ↦
        let (matched, dead) = expand_workspace_patterns patterns (names_of ctx.services) in
        elim dead [
          | [] ↦ call ctx matched
          | pattern ∷ more ↦ report_dead seams (pattern ∷ more) >> pure refused
        ]
  ]

unfoldable pub collect_status_workspace : Seams → Contexts → List Text → ℕ → M (List EnvStatus × ℕ)
unfolding with_workspace status_env_document
collect_status_workspace seams contexts patterns rc =
    with_workspace seams contexts patterns ([], 1)
      (λ ctx matched. do
        outcome ← attempt (status_env_document seams ctx matched)
        elim outcome [
          | returned doc ↦ pure (doc ∷ [], rc)
          | raised e ↦ no_document seams (codes "workspace") e []
        ])

unfoldable pub restart_workspace : Seams → Contexts → List Text → ℕ → M ℕ
unfolding with_workspace restart_services
restart_workspace seams contexts patterns rc =
    with_workspace seams contexts patterns 1 (λ ctx matched. do
      outcome ← attempt (restart_services seams ctx matched)
      elim outcome [
        | returned result ↦ pure (if result == 0 then rc else result)
        | raised e ↦ caught seams (codes "workspace") e
      ])
