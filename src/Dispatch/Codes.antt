-- ===== src/Dispatch/Codes.antt =====
-- What an exit code of 0 says of an action over several environments.
use winter_service_tmux.Prelude.{
  ℕ, ◌≡◌, refl, sym, ap, ◌∙◌, append_assoc, append-nil, subst, inl, inr, Bool, true, false, Option,
  none, some, List, [], ◌∷◌, ◌++◌, arith, if◌then◌else◌, Bool-cases, ◌==◌, ==_iff, nat_eq, Text,
  text_eq, all, All,
}
use winter_service_tmux.Prelude.Dict.{Dict}
use winter_service_tmux.Orchestrator.Host.{
  M, Result, returned, raised, Trace, pure, attempt, ◌>>=◌, Failure, is_orchestrator_error,
}
use winter_service_tmux.Orchestrator.Results.{
  Gives, Gives-pure, Gives-throw, Gives-bind, Gives-any, Gives-attempt,
}
use winter_service_tmux.Orchestrator.Context.{SessionContext, Seams}
use winter_service_tmux.Orchestrator.Status.{EnvStatus, status_env_document}
use winter_service_tmux.Dispatch.{build_ctx, caught}
use winter_service_tmux.Dispatch.Scopes.{
  Contexts, run_for_target, collect_one, collect_for_target, no_document,
}

-- the context that `_build_ctx` makes of the one the builder gives
abbrev pub injected : Seams → SessionContext → SessionContext
injected seams ctx = record ctx { env_vars = some seams.environ }

-- the context of a target, where there is one
abbrev pub IsBuilt : Seams → Contexts → Text → Option SessionContext → Type 0
IsBuilt seams contexts target none = Unit
IsBuilt seams contexts target (some ctx) =
    (c : SessionContext) × (contexts target ≡ returned c) × (ctx ≡ injected seams c)

pub build_ctx-IsBuilt :
    (seams : Seams) (contexts : Contexts) (target : Text)
    → Gives (IsBuilt seams contexts target) (build_ctx seams contexts target)
unfolding build_ctx
build_ctx-IsBuilt seams contexts target = go (contexts target) refl
  where
    go :
        (r : Result SessionContext)
        → contexts target ≡ r
        → Gives (IsBuilt seams contexts target) (build_ctx seams contexts target)
    go (returned c) e =
        rw (e, build_ctx)
          (Gives-pure (IsBuilt seams contexts target) (some (injected seams c)) (c, e, refl))
    go (raised f) e =
        rw (e, build_ctx)
          (Gives-bind (λ _. Unit) (IsBuilt seams contexts target) _ _ (Gives-any _)
            (λ _ _. Gives-pure (IsBuilt seams contexts target) none tt))

caught-one :
    (seams : Seams) (scope : Text) (e : Failure) → Gives (λ rc. rc ≡ 1) (caught seams scope e)
caught-one seams scope e = go (is_orchestrator_error e) refl
  where
    go : (b : Bool) → is_orchestrator_error e ≡ b → Gives (λ rc. rc ≡ 1) (caught seams scope e)
    go true h = rw h (
        Gives-bind (λ _. Unit) (λ rc. rc ≡ 1) _ _ (Gives-any _)
          (λ _ _. Gives-pure (λ rc. rc ≡ 1) 1 refl))
    go false h = rw h (Gives-throw (λ rc. rc ≡ 1) e)

module _ (seams : Seams) (contexts : Contexts)
    (invoke : SessionContext → Text → List Text → M ℕ) where
  -- the call for an environment, in the context built for it, has returned 0
  abbrev pub HasSucceeded : Text × List Text → Type 0
  HasSucceeded (env, names) =
      (c : SessionContext) × (contexts env ≡ returned c)
      × (h : Trace) × (h' : Trace) × (invoke (injected seams c) env names h ≡ (returned 0, h'))

  abbrev Passed : Text → List Text → ℕ → ℕ → Type 0
  Passed env names rc next = next ≡ 0 → (rc ≡ 0) × HasSucceeded (env, names)

  abbrev Folded : Dict Text (List Text) → ℕ → ℕ → Type 0
  Folded env_services rc rc' = rc' ≡ 0 → (rc ≡ 0) × All HasSucceeded env_services

  -- an outcome that leaves the code at 0 is a call that has returned 0
  settle :
      (env : Text) (names : List Text) (rc : ℕ) (c : SessionContext)
      → contexts env ≡ returned c
      → (outcome : Result ℕ) (h h' : Trace) → invoke (injected seams c) env names h ≡ (outcome, h')
      → Gives (Passed env names rc) (elim outcome [
        | returned result ↦ pure (if result == 0 then rc else result)
        | raised e ↦ caught seams env e
      ])
  settle env names rc c built (returned n) h h' ended = elim (Bool-cases (n == 0)) [
    | inl z ↦
        let zero_ended =
          subst (λ k. invoke (injected seams c) env names h ≡ (returned k, h')) ((==_iff n 0).0 z)
            ended in
        rw z (Gives-pure (Passed env names rc) rc (λ e. (e, (c, built, h, h', zero_ended))))
    | inr nz ↦ rw nz (Gives-pure (Passed env names rc) n (λ e. absurd (cc ((==_iff n 0).1 e, nz))))
  ]
  settle env names rc c built (raised f) h h' ended =
      λ g g' b run e. absurd (omega (arith, e, caught-one seams env f g g' b run))

  run_for_target-Folded :
      (env_services : Dict Text (List Text)) (rc : ℕ)
      → Gives
          (λ (rc' : ℕ). rc' ≡ 0 → (rc ≡ 0) × All HasSucceeded env_services)
          (run_for_target seams contexts invoke env_services rc)
  unfolding run_for_target
  run_for_target-Folded [] rc = Gives-pure (Folded [] rc) rc (λ e. (e, tt))
  run_for_target-Folded ((env, names) ∷ env_services) rc =
      Gives-bind (IsBuilt seams contexts env) (Folded ((env, names) ∷ env_services) rc) _ _
        (build_ctx-IsBuilt seams contexts env)
        (λ found built.
          Gives-bind (Passed env names rc) (Folded ((env, names) ∷ env_services) rc) _ _
            (one found built)
            (λ next passed h h' rc' run e.
              let (zero_next, all) = run_for_target-Folded env_services next h h' rc' run e in
              let (zero_rc, here) = passed zero_next in (zero_rc, (here, all))))
    where
      one :
          (found : Option SessionContext)
          → IsBuilt seams contexts env found
          → Gives (Passed env names rc) (elim found [
            | none ↦ pure 1
            | some ctx ↦ (do
              outcome ← attempt (invoke ctx env names)
              elim outcome [
                | returned result ↦ pure (if result == 0 then rc else result)
                | raised e ↦ caught seams env e
              ])
          ])
      one none _ = Gives-pure (Passed env names rc) 1 (λ e. absurd (omega (arith, e)))
      one (some ctx) (c, built, same) = rw same (
          Gives-bind
            (λ r. (h : Trace) × (h' : Trace) × (invoke (injected seams c) env names h ≡ (r, h')))
            (Passed env names rc) _ _ (Gives-attempt (invoke (injected seams c) env names))
            (λ outcome (h, h', ended). settle env names rc c built outcome h h' ended))

  -- Where an action over several environments returns the code 0, the code it began with was 0,
  -- and for each environment the context was built and the call made in it has returned 0: no
  -- failure of an environment is lost behind the success of a later one.
  pub run_for_target-AllSucceeded :
      (env_services : Dict Text (List Text)) (rc : ℕ) (h h' : Trace)
      → run_for_target seams contexts invoke env_services rc h ≡ (returned 0, h')
      → (rc ≡ 0) × All HasSucceeded env_services
  run_for_target-AllSucceeded env_services rc h h' run =
      run_for_target-Folded env_services rc h h' 0 run refl

module _ (seams : Seams) (contexts : Contexts) where
  -- the document of the environment: of these services, in the context built for it
  abbrev IsDocument : Text × List Text → EnvStatus → Type 0
  IsDocument (env, names) doc =
      (c : SessionContext) × (contexts env ≡ returned c)
      × (h : Trace) × (h' : Trace) × (status_env_document seams (injected seams c) names h
          ≡ (returned doc, h'))

  -- one document for each environment, in their order
  abbrev pub AreDocuments : Dict Text (List Text) → List EnvStatus → Type 0
  AreDocuments [] [] = Unit
  AreDocuments (one ∷ env_services) (doc ∷ docs) =
      IsDocument one doc × AreDocuments env_services docs
  AreDocuments _ _ = ⊥

  abbrev Adds : Text × List Text → List EnvStatus → ℕ → List EnvStatus × ℕ → Type 0
  Adds one docs rc (docs', rc') =
      rc' ≡ 0 → (rc ≡ 0) × ((doc : EnvStatus) × (docs' ≡ docs ++ (doc ∷ [])) × IsDocument one doc)

  abbrev Collects : Dict Text (List Text) → List EnvStatus → ℕ → List EnvStatus × ℕ → Type 0
  Collects env_services docs rc (docs', rc') =
      rc' ≡ 0
      → (rc ≡ 0) × ((new : List EnvStatus) × (docs' ≡ docs ++ new) × AreDocuments env_services new)

  collect_one-Adds :
      (env : Text) (names : List Text) (docs : List EnvStatus) (rc : ℕ)
      → Gives (Adds (env, names) docs rc) (collect_one seams contexts env names docs rc)
  unfolding collect_one
  collect_one-Adds env names docs rc =
      Gives-bind (IsBuilt seams contexts env) (Adds (env, names) docs rc) _ _
        (build_ctx-IsBuilt seams contexts env) (λ found built. one found built)
    where
      settled :
          (c : SessionContext)
          → contexts env ≡ returned c
          → (outcome : Result EnvStatus) (h h' : Trace)
          → status_env_document seams (injected seams c) names h ≡ (outcome, h')
          → Gives (Adds (env, names) docs rc) (elim outcome [
            | returned doc ↦ pure (docs ++ (doc ∷ []), rc)
            | raised e ↦ no_document seams env e docs
          ])
      settled c built (returned doc) h h' ended =
          Gives-pure (Adds (env, names) docs rc) (docs ++ (doc ∷ []), rc)
            (λ e. (e, (doc, refl, (c, built, h, h', ended))))
      settled c built (raised e) h h' ended =
          Gives-bind (λ code. code ≡ 1) (Adds (env, names) docs rc) _ _ (caught-one seams env e)
            (λ code one.
              Gives-pure (Adds (env, names) docs rc) (docs, code)
                (λ z. absurd (omega (arith, z, one))))

      one :
          (found : Option SessionContext)
          → IsBuilt seams contexts env found
          → Gives (Adds (env, names) docs rc) (elim found [
            | none ↦ pure (docs, 1)
            | some ctx ↦ (do
              outcome ← attempt (status_env_document seams ctx names)
              elim outcome [
                | returned doc ↦ pure (docs ++ (doc ∷ []), rc)
                | raised e ↦ no_document seams env e docs
              ])
          ])
      one none _ = Gives-pure (Adds (env, names) docs rc) (docs, 1) (λ e. absurd (omega (arith, e)))
      one (some ctx) (c, built, same) = rw same (
          Gives-bind
            (λ r.
              (h : Trace) × (h' : Trace) × (status_env_document seams (injected seams c) names h
                ≡ (r, h')))
            (Adds (env, names) docs rc) _ _
            (Gives-attempt (status_env_document seams (injected seams c) names))
            (λ outcome (h, h', ended). settled c built outcome h h' ended))

  collect_for_target-Collects :
      (env_services : Dict Text (List Text)) (docs : List EnvStatus) (rc : ℕ)
      → Gives
          (Collects env_services docs rc)
          (collect_for_target seams contexts env_services docs rc)
  unfolding collect_for_target
  collect_for_target-Collects [] docs rc =
      Gives-pure (Collects [] docs rc) (docs, rc) (λ e. (e, ([], sym (append-nil docs), tt)))
  collect_for_target-Collects ((env, names) ∷ env_services) docs rc =
      Gives-bind (Adds (env, names) docs rc) (Collects ((env, names) ∷ env_services) docs rc) _ _
        (collect_one-Adds env names docs rc)
        (λ next one h h' r run e.
          let (zero_next, (new, grown, all)) =
            collect_for_target-Collects env_services (next.0) (next.1) h h' r run e in
          let (zero_rc, (doc, added, here)) = one zero_next in
          (
            zero_rc,
            (
              doc ∷ new,
              grown ∙ ap (λ l. l ++ new) added ∙ append_assoc docs (doc ∷ []) new,
              (here, all),
            ),
          ))

  -- A collection of status documents that returns the code 0 began with it, and has added to the
  -- documents exactly one for each environment asked for, in their order: the document that
  -- `status_env_document` returned for its services in the context built for it.
  pub collect_for_target-AreDocuments :
      (env_services : Dict Text (List Text)) (docs docs' : List EnvStatus) (rc : ℕ) (h h' : Trace)
      → collect_for_target seams contexts env_services docs rc h ≡ (returned (docs', 0), h')
      → (rc ≡ 0) × ((new : List EnvStatus) × (docs' ≡ docs ++ new) × AreDocuments env_services new)
  collect_for_target-AreDocuments env_services docs docs' rc h h' run =
      collect_for_target-Collects env_services docs rc h h' (docs', 0) run refl
