-- ===== src/Dispatch/Matching.antt =====
-- What `up` and `down` of a scope and a pattern touch.
use winter_service_tmux.Prelude.{
  ℕ, ◌≡◌, refl, ◌⊎◌, inl, inr, Bool, true, false, some, List, [], ◌∷◌, nat_eq, Text, text_eq,
  contains,
}
use winter_service_tmux.Prelude.{In, In-filter, contains-In}
use winter_service_tmux.Manifest.Model.{Service}
use winter_service_tmux.Orchestrator.Host
use winter_service_tmux.Orchestrator.Host.{
  M, Done, Action, Result, returned, raised, Trace, pure, throw, act, attempt, ◌>>=◌, ◌>>◌, Failure,
  is_orchestrator_error,
}
use winter_service_tmux.Prelude.{filter, All, ◌∙◌}
use winter_service_tmux.Orchestrator.Host.{Trace}
use winter_service_tmux.Orchestrator.Effects.{
  Acts, Does, Does-weaken, Does-bind, Does-act, Does-pure, Does-throw, Does-attempt, Acts-bind,
  Acts-pure, bind-returned,
}
use winter_service_tmux.Orchestrator.Context.{
  SessionContext, Seams, names_of, is_whole_scope, requested_services,
}
use winter_service_tmux.Orchestrator.Untouched.{IsPaneOf, OnlyReaps, down-OnlyReaps}
use winter_service_tmux.Pattern.{matches_pattern}
use winter_service_tmux.Request.{split_scope_pattern}
use winter_service_tmux.Dispatch.{build_ctx, caught}
use winter_service_tmux.Dispatch.Scopes.{
  Contexts, matched_names, full_pattern, resolve_service_segment, on_target, down_target,
}
use winter_service_tmux.Dispatch.Codes.{injected}

-- the context of a target that the builder knows
build_ctx-known :
    {P : Action → Type 0} (seams : Seams) (contexts : Contexts) (target : Text) (c : SessionContext)
    → contexts target ≡ returned c
    → Does P (λ found. found ≡ some (injected seams c)) (build_ctx seams contexts target)
unfolding build_ctx
build_ctx-known seams contexts target c e = rw (e, build_ctx) (Does-pure _ refl)

-- a name that no service of the list has among the matched ones
none_matched :
    (ctx : SessionContext) (pattern : Text) (services : List Service)
    → All (λ svc. matches_pattern ctx.env svc.name pattern ≡ false) services
    → filter (λ name. matches_pattern ctx.env name pattern) (names_of services) ≡ []
unfolding filter names_of
none_matched ctx pattern [] h = refl
none_matched ctx pattern (svc ∷ services) (e, h) =
    rw (e, filter) (none_matched ctx pattern services h)

build_ctx-returns :
    (seams : Seams) (contexts : Contexts) (target : Text) (c : SessionContext) (h : Trace)
    → contexts target ≡ returned c
    → build_ctx seams contexts target h ≡ (returned (some (injected seams c)), h)
unfolding build_ctx Host.pure
build_ctx-returns seams contexts target c h built = rw (built, build_ctx) refl

resolve-unmatched :
    (seams : Seams) (ctx : SessionContext) (svc_pattern : Text) (h : Trace)
    → matched_names ctx (full_pattern ctx svc_pattern) ≡ []
    → seams.outside.perform h (Host.write (Host.no_match (full_pattern ctx svc_pattern)))
      ≡ returned tt
    → resolve_service_segment seams ctx (some svc_pattern) h
      ≡ (returned ([], 1), Host.did (Host.write (Host.no_match (full_pattern ctx svc_pattern))) ∷ h)
unfolding resolve_service_segment Host.◌>>=◌ Host.pure Host.act
resolve-unmatched seams ctx svc_pattern h none writes =
    rw (none, resolve_service_segment) (rw (writes, Host.◌>>=◌) refl)

-- Where messages can be written, an `up` or a `down` of a scope and a pattern that no service of
-- the scope matches returns 1, and its only call is the message that names the pattern; the action
-- itself, whatever it is, is not taken.
pub on_target-unmatched :
    (seams : Seams) (contexts : Contexts) (target scope svc_pattern : Text) (c : SessionContext)
    (call : SessionContext → List Text → M ℕ)
    → split_scope_pattern target ≡ (scope, some svc_pattern)
    → contexts scope ≡ returned c
    → All (λ svc. matches_pattern c.env svc.name (full_pattern c svc_pattern) ≡ false) c.services
    → ((h : Trace) (m : Host.Message) → seams.outside.perform h (Host.write m) ≡ returned tt)
    → (h : Trace)
    → on_target seams contexts call target h
      ≡ (returned 1, Host.did (Host.write (Host.no_match (full_pattern c svc_pattern))) ∷ h)
unfolding on_target matched_names Host.pure
on_target-unmatched seams contexts target scope svc_pattern c call split built unmatched writes h =
    let ctx = injected seams c in
    let unmatched_names = none_matched ctx (full_pattern c svc_pattern) c.services unmatched in
    let refusal = Host.no_match (full_pattern c svc_pattern) in
    rw (split, on_target)
      (bind-returned _ _ h h (some ctx) (build_ctx-returns seams contexts scope c h built)
        ∙ rw split (
            bind-returned _ _ h (Host.did (Host.write refusal) ∷ h) ([], 1)
              (resolve-unmatched seams ctx svc_pattern h unmatched_names (writes h refusal))))

-- a message, or the reaping of the pane of a service of the context that the pattern matches
abbrev pub ReapsMatching : Seams → SessionContext → Text → Action → Type 0
ReapsMatching seams c svc_pattern (Host.write message) = Unit
ReapsMatching seams c svc_pattern (Host.reap_descendants (pid ∷ [])) =
    (svc : Service) × In svc c.services
    × (matches_pattern c.env svc.name (full_pattern c svc_pattern) ≡ true)
    × IsPaneOf seams (injected seams c) pid svc
ReapsMatching seams c svc_pattern _ = ⊥

OnlyReaps-ReapsMatching :
    (seams : Seams) (c : SessionContext) (svc_pattern : Text) (a : Action)
    → OnlyReaps seams
        (injected seams c)
        (requested_services
          (matched_names (injected seams c) (full_pattern (injected seams c) svc_pattern))
          c.services)
        a
    → ReapsMatching seams c svc_pattern a
unfolding matched_names requested_services
OnlyReaps-ReapsMatching seams c svc_pattern (Host.write message) h = tt
OnlyReaps-ReapsMatching seams c svc_pattern (Host.reap_descendants (pid ∷ [])) (svc, i, pane) =
    let names = matched_names (injected seams c) (full_pattern (injected seams c) svc_pattern) in
    let (inside, named) = In-filter (λ s. contains s.name names) c.services svc i in
    let listed = (contains-In svc.name names).0 named in
    let matches =
      In-filter (λ n. matches_pattern c.env n (full_pattern c svc_pattern)) (names_of c.services)
        svc.name listed in
    (svc, inside, matches.1, pane)
OnlyReaps-ReapsMatching seams c svc_pattern a h = h

resolve-ends :
    {P : Action → Type 0} (seams : Seams) (ctx : SessionContext) (svc_pattern : Text)
    → ((m : Host.Message) → P (Host.write m))
    → Does P
        (λ r. (r ≡ ([], 1)) ⊎ (r ≡ (matched_names ctx (full_pattern ctx svc_pattern), 0)))
        (resolve_service_segment seams ctx (some svc_pattern))
unfolding resolve_service_segment
resolve-ends {P} seams ctx svc_pattern writes =
    go (matched_names ctx (full_pattern ctx svc_pattern)) refl
  where
    go :
        (ns : List Text)
        → matched_names ctx (full_pattern ctx svc_pattern) ≡ ns
        → Does P
            (λ r. (r ≡ ([], 1)) ⊎ (r ≡ (matched_names ctx (full_pattern ctx svc_pattern), 0)))
            (resolve_service_segment seams ctx (some svc_pattern))
    go [] e =
        rw (e, resolve_service_segment)
          (Does-bind (Does-act _ _ (writes _)) (λ _ _. Does-pure ([], 1) (inl refl)))
    go (n ∷ ns) e = rw (e, resolve_service_segment) (Does-pure (n ∷ ns, 0) (inr refl))

caught-Acts :
    {P : Action → Type 0} (seams : Seams) (scope : Text) (e : Failure)
    → ((m : Host.Message) → P (Host.write m))
    → Acts P (caught seams scope e)
caught-Acts {P} seams scope e writes = go (is_orchestrator_error e) refl
  where
    go : (b : Bool) → is_orchestrator_error e ≡ b → Acts P (caught seams scope e)
    go true h = rw h (Acts-bind (Does-act _ _ (writes _)) (λ _. Acts-pure 1))
    go false h = rw h (Does-throw _)

-- A `down` of a scope and a pattern that matches some but not all of its services, whatever the
-- machine is, writes messages and reaps panes of services that the pattern matches, and makes no
-- other call: the session is not killed.
pub down_target-ReapsMatching :
    (seams : Seams) (contexts : Contexts) (target scope svc_pattern : Text) (c : SessionContext)
    → split_scope_pattern target ≡ (scope, some svc_pattern)
    → contexts scope ≡ returned c
    → is_whole_scope
        (injected seams c)
        (matched_names (injected seams c) (full_pattern (injected seams c) svc_pattern))
      ≡ false
    → Acts (ReapsMatching seams c svc_pattern) (down_target seams contexts target)
unfolding down_target on_target
down_target-ReapsMatching seams contexts target scope svc_pattern c split built partly =
    rw (split, on_target)
      (Does-bind (build_ctx-known seams contexts scope c built) (λ found same.
        rw (same, split)
          (Does-bind (resolve-ends seams (injected seams c) svc_pattern (λ m. tt)) (λ r ends.
            elim ends [
              | inl e ↦ rw e (Acts-pure 1)
              | inr e ↦ rw e (
                  Does-bind
                    (Does-attempt (
                      Does-weaken (OnlyReaps-ReapsMatching seams c svc_pattern)
                        (down-OnlyReaps seams (injected seams c) names partly)))
                    (λ outcome _. settled _ outcome))
            ]))))
  where
    names : List Text
    names = matched_names (injected seams c) (full_pattern (injected seams c) svc_pattern)

    settled :
        (at : Text) (outcome : Result ℕ)
        → Acts
            (ReapsMatching seams c svc_pattern)
            (elim outcome [ returned result ↦ pure result | raised e ↦ caught seams at e ])
    settled at (returned result) = Acts-pure result
    settled at (raised e) = caught-Acts seams at e (λ m. tt)
