-- ===== src/Orchestrator/Plan.antt =====
-- What `_restart_plan` of orchestrator_service.py resolves: services, launch lines and panes.
use winter_service_tmux.Prelude.{
  ℕ, ◌≡◌, refl, ap, ◌∙◌, inl, inr, false, some, List, [], ◌∷◌, arith, Option-cases, ==_iff, nat_eq,
  Text, text_eq,
}
use winter_service_tmux.Prelude.Dict.{Dict, lookup, insert, lookup-insert}
use winter_service_tmux.Manifest.Model.{Service}
use winter_service_tmux.Orchestrator.Host.{returned, Trace, Action, PaneInfo, list_panes, asked}
use winter_service_tmux.Orchestrator.Effects.{
  Acts, does, Trail-map, Returns-Anything, Does, Does-bind, Does-pure, Does-throw,
}
use winter_service_tmux.Orchestrator.Trails.{
  Grows, Grows-trans, Trail-Grows, Runs, Runs-bind, Runs-pure, Runs-ask, Runs-Does,
}
use winter_service_tmux.Orchestrator.Context.{SessionContext, Seams, session, target_of, names_of}
use winter_service_tmux.Orchestrator.Order.{by_name}
use winter_service_tmux.Prelude.{In, All, All-map, All-In, subst}
use winter_service_tmux.Orchestrator.Lines.{HasLine, IsKnown, AreLines, launch_lines_for-AreLines}
use winter_service_tmux.Orchestrator.Selection.{by_name-AreOf, empty-AreOf}
use winter_service_tmux.Orchestrator.Start.{pane_map, missing_targets}
use winter_service_tmux.Orchestrator.Stop.{find_services, check_panes, restart_plan}

-- the entries of a dictionary of services stand under their names
abbrev IsNamed : Dict Text Service → Type 0
IsNamed d = (name : Text) (svc : Service) → lookup name d ≡ some svc → svc.name ≡ name

empty-IsNamed : IsNamed []
unfolding lookup
empty-IsNamed name svc e = ground arith

insert-IsNamed :
    (svc : Service) (d : Dict Text Service) → IsNamed d → IsNamed (insert (svc.name) svc d)
insert-IsNamed svc d h name found e =
    ground (arith, lookup-insert (svc.name) name svc d, ==_iff (svc.name) name, h name found)

by_name-IsNamed :
    (services : List Service) (d : Dict Text Service) → IsNamed d → IsNamed (by_name services d)
unfolding by_name
by_name-IsNamed [] d h = h
by_name-IsNamed (svc ∷ services) d h =
    by_name-IsNamed services (insert (svc.name) svc d) (insert-IsNamed svc d h)

-- the services of the names, each as it is known
abbrev AreFound : Dict Text Service → List Text → List Service → Type 0
AreFound known names services = (names_of services ≡ names) × All (IsKnown known) services

find_services-AreFound :
    {P : Action → Type 0} (known : Dict Text Service) (declared names : List Text)
    → IsNamed known
    → Does P (AreFound known names) (find_services known declared names)
unfolding find_services names_of
find_services-AreFound known declared [] named = Does-pure _ (refl, tt)
find_services-AreFound known declared (name ∷ names) named =
    elim (Option-cases (lookup name known)) [
      | inl e ↦ rw (e, find_services) (Does-throw _)
      | inr (svc, e) ↦
          rw (e, find_services)
            (Does-bind (find_services-AreFound known declared names named) (λ more (eq, found).
              Does-pure _ (
                rw (eq, named name svc e) refl,
                (ap (λ n. lookup n known) (named name svc e) ∙ e, found),
              )))
    ]

check_panes-missing :
    {P : Action → Type 0} (ctx : SessionContext) (panes : Dict Text ℕ) (services : List Service)
    → Does P (λ _. missing_targets panes services ≡ []) (check_panes ctx panes services)
unfolding check_panes missing_targets
check_panes-missing ctx panes [] = Does-pure _ refl
check_panes-missing ctx panes (svc ∷ services) =
    elim (Option-cases (lookup (target_of svc) panes)) [
      | inl e ↦ rw (e, check_panes) (Does-throw _)
      | inr (pid, e) ↦ rw (e, check_panes, missing_targets) (check_panes-missing ctx panes services)
    ]

-- the panes as tmux has listed them, asked between two points of the run
abbrev pub IsListing : Seams → SessionContext → Trace → Trace → List PaneInfo → Type 0
IsListing seams ctx first last infos =
    (h : Trace) × Grows first h
    × (seams.outside.panes_answer h (list_panes (session ctx)) ≡ returned infos)
    × Grows (asked (list_panes (session ctx)) ∷ h) last

-- a plan that serves the names: the services of the scope in the order of the names, each with the
-- line of its own environment and a pane that tmux has listed
abbrev pub Serves :
    Seams
    → SessionContext
    → List Text
    → Trace
    → Trace
    → List Service × Dict Text Text × Dict Text ℕ
    → Type 0
Serves seams ctx names first last (services, lines, panes) =
    (names_of services ≡ names)
    × All (λ svc. In svc (ctx.services)) services
    × All (HasLine seams ctx false lines) services
    × ((infos : List PaneInfo) × IsListing seams ctx first last infos × (panes ≡ pane_map infos []))
    × (missing_targets panes services ≡ [])

abbrev known_services : SessionContext → Dict Text Service
known_services ctx = by_name (ctx.services) []

known-In :
    (ctx : SessionContext) (services : List Service)
    → All (IsKnown (known_services ctx)) services
    → All (λ svc. In svc (ctx.services)) services
known-In ctx services found =
    All-map
      (λ svc e.
        by_name-AreOf (ctx.services) (ctx.services) [] (All-In (ctx.services))
          (empty-AreOf (ctx.services)) (svc.name) svc e)
      services found

pub restart_plan-Serves :
    (seams : Seams) (ctx : SessionContext) (names : List Text) (h : Trace)
    → Runs (λ _ _. ⊥) (Serves seams ctx names h) (restart_plan seams ctx names) h
unfolding restart_plan
restart_plan-Serves seams ctx names h =
    let goal = Serves seams ctx names h in
    let known = known_services ctx in
    Runs-bind (λ _ services. AreFound known names services) goal _ _ h
      (Runs-Does (λ _ _ p. p)
        (find_services-AreFound known (names_of (ctx.services)) names
          (by_name-IsNamed (ctx.services) [] empty-IsNamed))
        h)
      (λ services h1 t1 (eq, found).
        Runs-bind (λ _ lines. AreLines seams ctx false known services [] lines) goal _ _ h1
          (Runs-Does (λ _ _ p. p)
            (launch_lines_for-AreLines seams ctx false known services [] found) h1)
          (λ lines h2 t2 (own, keeps).
            Runs-bind
              (λ h' infos.
                (h' ≡ asked (list_panes (session ctx)) ∷ h2)
                × (seams.outside.panes_answer h2 (list_panes (session ctx)) ≡ returned infos))
              goal _ _ h2 (Runs-ask _ _ h2)
              (λ infos h3 t3 (end, answered).
                Runs-bind (λ _ _. missing_targets (pane_map infos []) services ≡ []) goal _ _ h3
                  (Runs-Does (λ _ _ p. p) (check_panes-missing ctx (pane_map infos []) services) h3)
                  (λ _ h4 t4 eq'.
                    let before = Grows-trans h h1 h2 (Trail-Grows t1) (Trail-Grows t2) in
                    let after = subst (λ t. Grows t h4) end (Trail-Grows t4) in
                    Runs-pure goal (services, lines, pane_map infos []) h4
                      (
                        eq,
                        known-In ctx services found,
                        own,
                        (infos, (h2, before, answered, after), refl),
                        eq',
                      )))))

pub restart_plan-Acts :
    {P : Action → Type 0} (seams : Seams) (ctx : SessionContext) (names : List Text)
    → Acts P (restart_plan seams ctx names)
restart_plan-Acts seams ctx names = does (λ h. (
  Trail-map (λ _ a p. absurd p) ((restart_plan-Serves seams ctx names h).0),
  Returns-Anything ((restart_plan seams ctx names h).0),
))
