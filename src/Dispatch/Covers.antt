-- ===== src/Dispatch/Covers.antt =====
-- What a restart over several scopes is about where its code is 0 so far: every scope selected.
use winter_service_tmux.Prelude.{
  ℕ, ◌≡◌, refl, sym, ap, ◌∙◌, inl, inr, Option, none, some, List, [], ◌∷◌, ◌++◌, append_assoc,
  append-nil, arith, if◌then◌else◌, Bool-cases, ◌==◌, ==_iff, nat_eq, Text, text_eq,
}
use winter_service_tmux.Prelude.Dict.{Dict}
use winter_service_tmux.Prelude.Str.{codes}
use winter_service_tmux.Orchestrator.Host.{returned, pure, ◌>>=◌}
use winter_service_tmux.Orchestrator.Results.{Gives, Gives-pure, Gives-bind, Gives-any}
use winter_service_tmux.Orchestrator.Context.{SessionContext, Seams, names_of}
use winter_service_tmux.Selector.{expand_workspace_patterns}
use winter_service_tmux.Dispatch.{
  RestartTarget, workspace_target, env_targets, preflight_targets, prepare, matched_workspace,
}
use winter_service_tmux.Dispatch.Scopes.{Contexts}
use winter_service_tmux.Dispatch.Codes.{injected, IsBuilt, build_ctx-IsBuilt}

module _ (seams : Seams) (contexts : Contexts) where
  -- a target for each environment, in their order, with its services and the context built for it
  abbrev pub Covers : Dict Text (List Text) → List RestartTarget → Type 0
  Covers [] [] = Unit
  Covers ((env, names) ∷ env_services) ((scope, ctx, svc_names) ∷ targets) =
      (scope ≡ env)
      × (svc_names ≡ names)
      × ((c : SessionContext) × (contexts env ≡ returned c) × (ctx ≡ injected seams c))
      × Covers env_services targets
  Covers _ _ = ⊥

  -- the workspace with the services of the patterns, where there are patterns; each matches some
  abbrev pub CoversWorkspace : List Text → List RestartTarget → Type 0
  CoversWorkspace [] targets = targets ≡ []
  CoversWorkspace (p ∷ patterns) targets =
      (c : SessionContext) × (contexts (codes "workspace") ≡ returned c)
      × (expand_workspace_patterns (p ∷ patterns) (names_of c.services)
          ≡ ((expand_workspace_patterns (p ∷ patterns) (names_of c.services)).0, []))
      × (targets
          ≡ (
            codes "workspace",
            injected seams c,
            (expand_workspace_patterns (p ∷ patterns) (names_of c.services)).0,
          )
            ∷ [])

  abbrev pub CoversAll : List Text → Dict Text (List Text) → List RestartTarget → Type 0
  CoversAll patterns env_services targets =
      (ws : List RestartTarget) × (es : List RestartTarget) × (targets ≡ ws ++ es)
      × CoversWorkspace patterns ws
      × Covers env_services es

  abbrev AddsEnvs : Dict Text (List Text) → ℕ → List RestartTarget → ℕ × List RestartTarget → Type 0
  AddsEnvs env_services rc targets (rc', targets') =
      rc' ≡ 0
      → (rc ≡ 0) × ((es : List RestartTarget) × (targets' ≡ targets ++ es) × Covers env_services es)

  env_targets-AddsEnvs :
      (env_services : Dict Text (List Text)) (rc : ℕ) (targets : List RestartTarget)
      → Gives
          (AddsEnvs env_services rc targets)
          (env_targets seams contexts env_services rc targets)
  unfolding env_targets
  env_targets-AddsEnvs [] rc targets =
      Gives-pure (AddsEnvs [] rc targets) (rc, targets)
        (λ e. (e, ([], sym (append-nil targets), tt)))
  env_targets-AddsEnvs ((env, names) ∷ env_services) rc targets =
      Gives-bind (IsBuilt seams contexts env) (AddsEnvs ((env, names) ∷ env_services) rc targets) _
        _ (build_ctx-IsBuilt seams contexts env)
        (λ found built.
          one found built (env_targets-AddsEnvs env_services 1 targets)
            (λ ctx. env_targets-AddsEnvs env_services rc (targets ++ ((env, ctx, names) ∷ []))))
    where
      one :
          (found : Option SessionContext)
          → IsBuilt seams contexts env found
          → Gives
              (AddsEnvs env_services 1 targets)
              (env_targets seams contexts env_services 1 targets)
          → ((ctx : SessionContext)
              → Gives (AddsEnvs env_services rc (targets ++ ((env, ctx, names) ∷ []))) (
                  env_targets seams contexts env_services rc (targets ++ ((env, ctx, names) ∷ []))))
          → Gives (AddsEnvs ((env, names) ∷ env_services) rc targets) (elim found [
            | none ↦ env_targets seams contexts env_services 1 targets
            | some ctx ↦
                env_targets seams contexts env_services rc (targets ++ ((env, ctx, names) ∷ []))
          ])
      one none _ failed rest h h' r run e = absurd (omega (arith, (failed h h' r run e).0))
      one (some ctx) (c, built, same) failed rest h h' r run e =
          let (zero_rc, (es, grown, covers)) = rest ctx h h' r run e in
          (
            zero_rc,
            (
              (env, ctx, names) ∷ es,
              grown ∙ append_assoc targets ((env, ctx, names) ∷ []) es,
              (refl, refl, (c, built, same), covers),
            ),
          )

  abbrev AddsWorkspace : List Text → ℕ → ℕ × List RestartTarget → Type 0
  AddsWorkspace patterns rc (rc', targets) = rc' ≡ 0 → CoversWorkspace patterns targets

  workspace_target-AddsWorkspace :
      (patterns : List Text) (rc : ℕ)
      → Gives (AddsWorkspace patterns rc) (workspace_target seams contexts patterns rc)
  unfolding workspace_target
  workspace_target-AddsWorkspace [] rc = Gives-pure (AddsWorkspace [] rc) (rc, []) (λ e. refl)
  workspace_target-AddsWorkspace (p ∷ patterns) rc =
      Gives-bind (IsBuilt seams contexts (codes "workspace")) (AddsWorkspace (p ∷ patterns) rc) _ _
        (build_ctx-IsBuilt seams contexts (codes "workspace")) (λ found built. one found built)
    where
      refused : Gives (AddsWorkspace (p ∷ patterns) rc) (pure (1, []))
      refused =
          Gives-pure (AddsWorkspace (p ∷ patterns) rc) (1, []) (λ e. absurd (omega (arith, e)))

      matched :
          (c : SessionContext) (dead : List Text)
          → contexts (codes "workspace") ≡ returned c
          → (expand_workspace_patterns (p ∷ patterns) (names_of c.services)).1 ≡ dead
          → Gives
              (AddsWorkspace (p ∷ patterns) rc)
              (matched_workspace seams (p ∷ patterns) (injected seams c) rc)
      matched c [] built e = rw e (
          Gives-pure (AddsWorkspace (p ∷ patterns) rc)
            (
              rc,
              (
                codes "workspace",
                injected seams c,
                (expand_workspace_patterns (p ∷ patterns) (names_of c.services)).0,
              )
                  ∷ [],
            )
            (λ z. (
              c,
              built,
              ap (λ d. ((expand_workspace_patterns (p ∷ patterns) (names_of c.services)).0, d)) e,
              refl,
            )))
      matched c (x ∷ dead) built e = rw e (
          Gives-bind (λ _. Unit) (AddsWorkspace (p ∷ patterns) rc) _ _ (Gives-any _)
            (λ _ _. refused))

      one :
          (found : Option SessionContext)
          → IsBuilt seams contexts (codes "workspace") found
          → Gives (AddsWorkspace (p ∷ patterns) rc) (elim found [
            | none ↦ pure (1, [])
            | some ctx ↦ matched_workspace seams (p ∷ patterns) ctx rc
          ])
      one none _ = refused
      one (some ctx) (c, built, same) = rw same (matched c _ built refl)

  abbrev IsPrepared : List Text → Dict Text (List Text) → ℕ × List RestartTarget → Type 0
  IsPrepared patterns env_services (rc, targets) = rc ≡ 0 → CoversAll patterns env_services targets

  pub prepare-CoversAll :
      (patterns : List Text) (env_services : Dict Text (List Text)) (rc : ℕ)
      → Gives (IsPrepared patterns env_services) (prepare seams contexts patterns env_services rc)
  unfolding prepare
  prepare-CoversAll patterns env_services rc =
      Gives-bind (AddsWorkspace patterns rc) (IsPrepared patterns env_services) _ _
        (workspace_target-AddsWorkspace patterns rc)
        (λ first ws.
          Gives-bind (AddsEnvs env_services (first.0) (first.1)) (IsPrepared patterns env_services)
            _ _ (env_targets-AddsEnvs env_services (first.0) (first.1))
            (λ all es. either all (λ z.
              let (zero_first, (found, grown, covers)) = es z in
              (first.1, found, grown, ws zero_first, covers))))
    where
      either :
          (all : ℕ × List RestartTarget)
          → IsPrepared patterns env_services all
          → Gives (IsPrepared patterns env_services) (
              if all.0 == 0
              then (do rc ← preflight_targets seams (all.1) 0; pure (rc, all.1))
              else pure all)
      either (rc', targets) ready = elim (Bool-cases (rc' == 0)) [
        | inl z ↦ rw z (
            Gives-bind (λ _. Unit) (IsPrepared patterns env_services) _ _ (Gives-any _)
              (λ code _.
                Gives-pure (IsPrepared patterns env_services) (code, targets)
                  (λ _. ready ((==_iff rc' 0).0 z))))
        | inr nz ↦ rw nz (Gives-pure (IsPrepared patterns env_services) (rc', targets) ready)
      ]
