-- ===== src/Orchestrator/Lines.antt =====
-- What `_launch_lines_for` of orchestrator_service.py returns.
use winter_service_tmux.Prelude.{
  ◌≡◌, refl, sym, ap, ◌∙◌, inl, inr, Bool, true, none, some, List, [], ◌∷◌, Bool-cases, ◌==◌,
  ==_iff, nat_eq, Text, text_eq, all, All,
}
use winter_service_tmux.Prelude.Dict.{Dict, lookup, insert, lookup-insert}
use winter_service_tmux.Manifest.Model.{Service}
use winter_service_tmux.Orchestrator.Host.{Action}
use winter_service_tmux.Orchestrator.Effects.{Does, Does-bind, Does-pure, Does-imp}
use winter_service_tmux.Orchestrator.Context.{SessionContext, Seams}
use winter_service_tmux.Orchestrator.Environment.{launch_line, launch_lines_for}
use winter_service_tmux.Orchestrator.Preflight.{service_environment-own, resolved_mapping-Acts}

-- the line of a service is the one of its own environment
abbrev pub HasLine : Seams → SessionContext → Bool → Dict Text Text → Service → Type 0
HasLine seams ctx capture lines svc =
    lookup svc.name lines ≡ some (launch_line seams ctx capture svc svc.env)

-- the service that its name stands for
abbrev pub IsKnown : Dict Text Service → Service → Type 0
IsKnown known svc = lookup svc.name known ≡ some svc

IsKnown-same :
    (known : Dict Text Service) (s t : Service)
    → IsKnown known s
    → IsKnown known t
    → s.name ≡ t.name
    → s ≡ t
IsKnown-same known s t hs ht e =
    let same : some s ≡ some t = sym hs ∙ ap (λ n. lookup n known) e ∙ ht in cc same

module _ (seams : Seams) (ctx : SessionContext) (capture : Bool) (known : Dict Text Service) where
  insert-HasLine :
      (lines : Dict Text Text) (svc s : Service)
      → IsKnown known svc
      → IsKnown known s
      → HasLine seams ctx capture lines s
      → HasLine seams ctx capture
          (insert svc.name (launch_line seams ctx capture svc svc.env) lines)
          s
  insert-HasLine lines svc s hv hs has =
      let line = launch_line seams ctx capture svc svc.env in
      elim (Bool-cases (svc.name == s.name)) [
        | inl e ↦
            let same : svc ≡ s = IsKnown-same known svc s hv hs ((==_iff svc.name s.name).0 e) in
            lookup-insert svc.name s.name line lines
            ∙ rw e (ap (λ t. some (launch_line seams ctx capture t t.env)) same)
        | inr e ↦ lookup-insert svc.name s.name line lines ∙ rw e has
      ]

  insert-own :
      (lines : Dict Text Text) (svc : Service)
      → HasLine seams ctx capture
          (insert svc.name (launch_line seams ctx capture svc svc.env) lines)
          svc
  insert-own lines svc =
      lookup-insert svc.name svc.name (launch_line seams ctx capture svc svc.env) lines
      ∙ rw ((==_iff svc.name svc.name).1 refl) refl

  -- each service has its line, and a line that was there stays
  abbrev pub AreLines : List Service → Dict Text Text → Dict Text Text → Type 0
  AreLines services before lines =
      All (HasLine seams ctx capture lines) services
      × ((s : Service)
          → IsKnown known s
          → HasLine seams ctx capture before s
          → HasLine seams ctx capture lines s)

  pub launch_lines_for-AreLines :
      {P : Action → Type 0} (services : List Service) (before : Dict Text Text)
      → All (IsKnown known) services
      → Does P (AreLines services before) (launch_lines_for seams ctx capture services before)
  unfolding launch_lines_for
  launch_lines_for-AreLines [] before h = Does-pure before (tt, (λ s k has. has))
  launch_lines_for-AreLines (svc ∷ services) before (hk, h) =
      Does-bind (service_environment-own svc) (λ mapping own.
        Does-bind (resolved_mapping-Acts seams ctx svc true none mapping) (λ _ _. rw own (
          Does-imp
            (λ lines (all, keeps). (
              (keeps svc hk (insert-own before svc), all),
              (λ s k has. keeps s k (insert-HasLine before svc s hk k has)),
            ))
            (launch_lines_for-AreLines services
              (insert svc.name (launch_line seams ctx capture svc svc.env) before) h))))
