-- ===== src/Orchestrator/Idle.antt =====
-- The launches of a partial `up` of orchestrator_service.py go to panes seen idle before.
use winter_service_tmux.Prelude.{
  ℕ, ◌≡◌, refl, inl, inr, Bool, true, false, Option, none, some, List, [], ◌∷◌, if◌then◌else◌,
  Option-cases, nat_eq, Text, text_eq, all, All,
}
use winter_service_tmux.Prelude.{In, All-map}
use winter_service_tmux.Prelude.Dict.{Dict, lookup, get_or}
use winter_service_tmux.Manifest.Model.{Service}
use winter_service_tmux.Orchestrator.Host
use winter_service_tmux.Orchestrator.Host.{
  M, Result, returned, Trace, Action, PaneInfo, asked, list_panes, has_children, pure, ◌>>=◌, ◌>>◌,
}
use winter_service_tmux.Orchestrator.Trails.{
  Grows, Grows-trans, Trail-Grows, Runs, Runs-bind, Runs-pure, Runs-any, Runs-ask, Runs-act,
  Runs-Acts, Whatever,
}
use winter_service_tmux.Orchestrator.Context.{SessionContext, Seams, session, target_of}
use winter_service_tmux.Orchestrator.Start.{pane_map, launchable, launch_all, dependency_complaint}
use winter_service_tmux.Orchestrator.Waiting.{dependency_complaint-Acts}

-- the calls so far have listed the panes, the shell `pid` for the pane of the service among them
abbrev pub IsShown : Seams → SessionContext → Trace → ℕ → Service → Type 0
IsShown seams ctx h pid svc =
    (before : Trace) × (panes : List PaneInfo) × Grows (asked (list_panes (session ctx)) ∷ before) h
    × (seams.outside.panes_answer before (list_panes (session ctx)) ≡ returned panes)
    × (lookup (target_of svc) (pane_map panes []) ≡ some pid)

-- one of the calls so far has looked for children of the shell, and there were none
abbrev pub WasIdle : Seams → Trace → ℕ → Type 0
WasIdle seams h pid =
    (before : Trace) × Grows (asked (has_children pid) ∷ before) h
    × (seams.outside.flag_answer before (has_children pid) ≡ returned false)

-- the last call was that look
abbrev pub IsIdle : Seams → Trace → ℕ → Type 0
IsIdle seams h pid =
    (before : Trace) × (h ≡ asked (has_children pid) ∷ before)
    × (seams.outside.flag_answer before (has_children pid) ≡ returned false)

-- Messages, waiting and the log directory; keys for the pane of one of the services, which the
-- calls so far have listed and seen idle; and the reaping of such a pane where the last call has
-- seen it idle.
abbrev pub OnlyStarts : Seams → SessionContext → List Service → Trace → Action → Type 0
OnlyStarts seams ctx services h (Host.write message) = Unit
OnlyStarts seams ctx services h (Host.sleep d) = Unit
OnlyStarts seams ctx services h (Host.ensure_log_dir dir) = Unit
OnlyStarts seams ctx services h (Host.send_keys name target line) =
    (name ≡ session ctx)
    × ((svc : Service) × (pid : ℕ) × In svc services
        × (target ≡ target_of svc)
        × IsShown seams ctx h pid svc
        × WasIdle seams h pid)
OnlyStarts seams ctx services h (Host.reap_descendants (pid ∷ [])) =
    (svc : Service) × In svc services × IsShown seams ctx h pid svc × IsIdle seams h pid
OnlyStarts seams ctx services h _ = ⊥

module _ (seams : Seams) (ctx : SessionContext) where
  pub IsShown-Grows :
      (h h' : Trace) (pid : ℕ) (svc : Service)
      → Grows h h'
      → IsShown seams ctx h pid svc
      → IsShown seams ctx h' pid svc
  IsShown-Grows h h' pid svc g (before, panes, g', answered, found) =
      (before, panes, Grows-trans _ h h' g' g, answered, found)

  pub WasIdle-Grows :
      (h h' : Trace) (pid : ℕ) → Grows h h' → WasIdle seams h pid → WasIdle seams h' pid
  WasIdle-Grows h h' pid g (before, g', seen) = (before, Grows-trans _ h h' g' g, seen)

  pub IsIdle-WasIdle : (h : Trace) (pid : ℕ) → IsIdle seams h pid → WasIdle seams h pid
  IsIdle-WasIdle h pid (before, e, seen) = (before, ([], e), seen)

  -- the map is of panes that the calls so far have listed
  abbrev pub AreShown : Trace → Dict Text ℕ → Type 0
  AreShown h panes =
      (svc : Service) (pid : ℕ)
      → lookup (target_of svc) panes ≡ some pid
      → IsShown seams ctx h pid svc

  pub AreShown-Grows :
      (h h' : Trace) (panes : Dict Text ℕ) → Grows h h' → AreShown h panes → AreShown h' panes
  AreShown-Grows h h' panes g shown svc pid e = IsShown-Grows h h' pid svc g (shown svc pid e)

  -- a service to launch: one of `all`, its pane listed and seen idle
  abbrev pub IsReady : List Service → Trace → Service → Type 0
  IsReady all h svc = In svc all × ((pid : ℕ) × IsShown seams ctx h pid svc × WasIdle seams h pid)

  IsReady-Grows :
      (all : List Service) (h h' : Trace) (svc : Service)
      → Grows h h'
      → IsReady all h svc
      → IsReady all h' svc
  IsReady-Grows all h h' svc g (i, (pid, shown, idle)) =
      (i, (pid, IsShown-Grows h h' pid svc g shown, WasIdle-Grows h h' pid g idle))

  abbrev pub AreReady : List Service → Trace → List Service → Type 0
  AreReady all h services = All (IsReady all h) services

  pub AreReady-Grows :
      (all : List Service) (h h' : Trace) (services : List Service)
      → Grows h h'
      → AreReady all h services
      → AreReady all h' services
  AreReady-Grows all h h' services g ready =
      All-map (λ svc. IsReady-Grows all h h' svc g) services ready

  module _ (all : List Service) where
    abbrev Starts : Trace → Action → Type 0
    Starts = OnlyStarts seams ctx all

    kept :
        (svc : Service) (more : List Service) (pid : ℕ) (h0 h1 h2 : Trace) (busy : Bool)
        → In svc all
        → IsShown seams ctx h2 pid svc
        → h1 ≡ asked (has_children pid) ∷ h0
        → seams.outside.flag_answer h0 (has_children pid) ≡ returned busy
        → Grows h1 h2
        → AreReady all h2 more
        → AreReady all h2 (if busy then more else svc ∷ more)
    kept svc more pid h0 h1 h2 true i shown e seen g ready = ready
    kept svc more pid h0 h1 h2 false i shown e seen g ready =
        ((i, (pid, shown, WasIdle-Grows h1 h2 pid g (h0, ([], e), seen))), ready)

    pub launchable-AreReady :
        (panes : Dict Text ℕ) (services : List Service) (h : Trace)
        → AreShown h panes
        → All (λ svc. In svc all) services
        → Runs Starts (AreReady all) (launchable seams panes services) h
    unfolding launchable
    launchable-AreReady panes [] h shown inside = Runs-pure (AreReady all) [] h tt
    launchable-AreReady panes (svc ∷ services) h shown (i, inside) =
        elim (Option-cases (lookup (target_of svc) panes)) [
          | inl e ↦ rw (e, launchable) (launchable-AreReady panes services h shown inside)
          | inr (pid, e) ↦
              rw (e, launchable)
                (Runs-bind
                  (λ h1 busy.
                    (h1 ≡ asked (has_children pid) ∷ h)
                    × (seams.outside.flag_answer h (has_children pid) ≡ returned busy))
                  (AreReady all) _ _ h (Runs-ask _ _ h)
                  (λ busy h1 t1 (last, seen).
                    Runs-bind (AreReady all) (AreReady all) (launchable seams panes services) _ h1
                      (launchable-AreReady panes services h1
                        (AreShown-Grows h h1 panes (Trail-Grows t1) shown) inside)
                      (λ more h2 t2 ready. Runs-pure (AreReady all) _ h2 (
                        kept svc more pid h h1 h2 busy i
                          (IsShown-Grows h h2 pid svc
                            (Grows-trans h h1 h2 (Trail-Grows t1) (Trail-Grows t2))
                            (shown svc pid e))
                          last seen (Trail-Grows t2) ready))))
        ]

    -- messages and sleeps are allowed at any time
    abbrev IsPause : Action → Type 0
    IsPause (Host.write message) = Unit
    IsPause (Host.sleep d) = Unit
    IsPause _ = ⊥

    pause : (h : Trace) (a : Action) → IsPause a → Starts h a
    pause h (Host.write message) p = tt
    pause h (Host.sleep d) p = tt
    pause h (Host.new_session _ _) p = absurd p
    pause h (Host.kill_session _) p = absurd p
    pause h (Host.send_keys _ _ _) p = absurd p
    pause h (Host.reap_descendants _) p = absurd p
    pause h (Host.run_hook _ _ _) p = absurd p
    pause h (Host.ensure_log_dir _) p = absurd p
    pause h (Host.delete_log _) p = absurd p

    pub launch_all-Runs :
        (lines : Dict Text Text) (services : List Service) (h : Trace)
        → AreReady all h services
        → Runs Starts Whatever (launch_all seams ctx lines services) h
    unfolding launch_all
    launch_all-Runs lines [] h ready = Runs-any true h
    launch_all-Runs lines (svc ∷ services) h ready =
        Runs-bind Whatever Whatever (dependency_complaint seams ctx svc) _ h
          (Runs-Acts pause (dependency_complaint-Acts (λ m. tt) (λ d. tt) seams ctx svc) h)
          (λ complaint h1 t1 u.
            settled complaint h1 (AreReady-Grows all h h1 (svc ∷ services) (Trail-Grows t1) ready)
              (λ h2 later. launch_all-Runs lines services h2 later))
      where
        settled :
            (complaint : Option Host.Message) (h1 : Trace)
            → AreReady all h1 (svc ∷ services)
            → ((h2 : Trace)
                → AreReady all h2 services
                → Runs Starts Whatever (launch_all seams ctx lines services) h2)
            → Runs Starts Whatever
                (elim complaint [
                  | some message ↦ Host.act (seams.outside) (Host.write message) >> pure false
                  | none ↦
                      Host.act
                        (seams.outside)
                        (Host.send_keys (session ctx) (target_of svc) (get_or (svc.name) [] lines))
                      >> launch_all seams ctx lines services
                ])
                h1
        settled (some message) h1 ready k =
            Runs-bind _ Whatever _ _ h1 (Runs-act (seams.outside) (Host.write message) h1 tt)
              (λ u h2 t2 e. Runs-any false h2)
        settled none h1 ((i, (pid, shown, idle)), ready) k =
            Runs-bind _ Whatever _ _ h1
              (Runs-act (seams.outside)
                (Host.send_keys (session ctx) (target_of svc) (get_or (svc.name) [] lines)) h1
                (refl, (svc, pid, i, refl, shown, idle)))
              (λ u h2 t2 e. k h2 (AreReady-Grows all h1 h2 services (Trail-Grows t2) ready))
