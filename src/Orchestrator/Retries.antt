-- ===== src/Orchestrator/Retries.antt =====
-- The retries of orchestrator_service.py go to panes just seen idle.
use winter_service_tmux.Prelude.{
  ℕ, zero, suc, ◌≡◌, refl, inl, inr, Bool, true, false, not, ◌||◌, List, [], ◌∷◌, ◌++◌,
  if◌then◌else◌, Option-cases, nat_eq, Text, text_eq, All,
}
use winter_service_tmux.Prelude.{In, All-map, All-In}
use winter_service_tmux.Prelude.Int.{ℤ, pos}
use winter_service_tmux.Prelude.Dict.{Dict, lookup, get_or}
use winter_service_tmux.Prelude.Str.{codes, join}
use winter_service_tmux.Manifest.Model.{Service, Seconds}
use winter_service_tmux.Orchestrator.Host
use winter_service_tmux.Orchestrator.Host.{
  M, returned, Trace, asked, has_children, pure, ◌>>=◌, ◌>>◌,
}
use winter_service_tmux.Orchestrator.Trails.{
  Grows, Grows-trans, Trail-Grows, Runs, Runs-bind, Runs-any, Runs-ask, Runs-act, Runs-if, Whatever,
}
use winter_service_tmux.Orchestrator.Context.{SessionContext, Seams, target_of, is_empty}
use winter_service_tmux.Orchestrator.Wait.{
  startup_candidates, startup_policy, retry_launch, monitor, await_startup,
}
use winter_service_tmux.Orchestrator.Start.{finish}
use winter_service_tmux.Orchestrator.Idle.{
  IsShown, IsIdle, IsIdle-WasIdle, WasIdle-Grows, IsShown-Grows, OnlyStarts, AreShown,
  AreShown-Grows,
}

module _ (seams : Seams) (ctx : SessionContext) (all : List Service) where
  -- the candidates for a retry: of the services, each in a pane that was listed
  abbrev AreCandidates : Trace → List (Service × ℕ × ℕ × Seconds) → Type 0
  AreCandidates h candidates = All (λ c. In (c.0) all × IsShown seams ctx h (c.1) (c.0)) candidates

  AreCandidates-Grows :
      (h h' : Trace) (candidates : List (Service × ℕ × ℕ × Seconds))
      → Grows h h'
      → AreCandidates h candidates
      → AreCandidates h' candidates
  AreCandidates-Grows h h' candidates g ok =
      All-map (λ c (i, shown). (i, IsShown-Grows seams ctx h h' (c.1) (c.0) g shown)) candidates ok

  startup_candidates-shown :
      (panes : Dict Text ℕ) (services : List Service) (h : Trace)
      → AreShown seams ctx h panes
      → All (λ svc. In svc all) services
      → AreCandidates h (startup_candidates panes services)
  unfolding startup_candidates
  startup_candidates-shown panes [] h shown within = tt
  startup_candidates-shown panes (svc ∷ services) h shown (hs, within) =
      let later = startup_candidates-shown panes services h shown within in
      elim (Option-cases (startup_policy svc)) [
        | inl e ↦ rw (e, startup_candidates) later
        | inr (policy, e) ↦ elim (Option-cases (lookup (target_of svc) panes)) [
          | inl e' ↦ rw (e, e', startup_candidates) later
          | inr (pid, e') ↦ rw (e, e', startup_candidates) ((hs, shown svc pid e'), later)
        ]
      ]

  abbrev Starts : Trace → Host.Action → Type 0
  Starts = OnlyStarts seams ctx all

  -- what was just asked of the children of the shell
  abbrev Looked : ℕ → Trace → Trace → Bool → Type 0
  Looked pid h h' alive =
      (h' ≡ asked (has_children pid) ∷ h)
      × (seams.outside.flag_answer h (has_children pid) ≡ returned alive)

  -- on a look that found no child, the idle branch is taken in an idle pane
  unless :
      {A : Type 0} (pid : ℕ) (h h' : Trace) (alive : Bool) (well ill : M A)
      → Looked pid h h' alive
      → Runs Starts Whatever well h'
      → (IsIdle seams h' pid → Runs Starts Whatever ill h')
      → Runs Starts Whatever (if alive then well else ill) h'
  unless pid h h' true well ill look dw di = dw
  unless pid h h' false well ill (last, seen) dw di = di (h, last, seen)

  retry_launch-Runs :
      (svc : Service) (pid : ℕ) (line : Text) (retries : ℤ) (delay : Seconds) (attempt left : ℕ)
      (h : Trace)
      → In svc all
      → IsShown seams ctx h pid svc
      → IsIdle seams h pid
      → Runs Starts Whatever (retry_launch seams ctx svc pid line retries delay attempt left) h
  unfolding retry_launch
  retry_launch-Runs svc pid line retries delay attempt zero h i shown idle = Runs-any false h
  retry_launch-Runs svc pid line retries delay attempt (suc left) h i shown idle =
      Runs-bind _ Whatever _ _ h (Runs-act _ _ h (svc, i, shown, idle)) (λ u1 h1 t1 e1.
        Runs-bind _ Whatever _ _ h1 (Runs-act _ _ h1 tt) (λ u2 h2 t2 e2.
          let g2 = Grows-trans h h1 h2 (Trail-Grows t1) (Trail-Grows t2) in
          let shown2 = IsShown-Grows seams ctx h h2 pid svc g2 shown in
          let was = WasIdle-Grows seams ctx h h2 pid g2 (IsIdle-WasIdle seams ctx h pid idle) in
          Runs-bind _ Whatever _ _ h2 (Runs-act _ _ h2 (refl, (svc, pid, i, refl, shown2, was)))
            (λ u3 h3 t3 e3. Runs-bind _ Whatever _ _ h3 (Runs-act _ _ h3 tt) (λ u4 h4 t4 e4.
              Runs-bind (Looked pid h4) Whatever _ _ h4 (Runs-ask _ _ h4) (λ alive h5 t5 look.
                let g5 =
                  Grows-trans h2 h4 h5 (Grows-trans h2 h3 h4 (Trail-Grows t3) (Trail-Grows t4))
                    (Trail-Grows t5) in
                unless pid h4 h5 alive _ _ look (Runs-any true h5) (λ idle5.
                  retry_launch-Runs svc pid line retries delay (suc attempt) left h5 i
                    (IsShown-Grows seams ctx h2 h5 pid svc g5 shown2) idle5))))))

  monitor-Runs :
      (lines : Dict Text Text) (candidates : List (Service × ℕ × ℕ × Seconds)) (failed : List Text)
      (h : Trace)
      → AreCandidates h candidates
      → Runs Starts Whatever (monitor seams ctx lines candidates failed) h
  unfolding monitor
  monitor-Runs lines [] failed h ok = Runs-any failed h
  monitor-Runs lines ((svc, pid, retries, delay) ∷ candidates) failed h ((i, shown), ok) =
      Runs-bind (Looked pid h) Whatever _ _ h (Runs-ask _ _ h) (λ alive h1 t1 look.
        let g1 = Trail-Grows t1 in
        unless pid h h1 alive _ _ look
          (monitor-Runs lines candidates failed h1 (AreCandidates-Grows h h1 candidates g1 ok))
          (λ idle.
            Runs-bind Whatever Whatever _ _ h1
              (retry_launch-Runs svc pid (get_or (svc.name) [] lines) (pos retries) delay 1 retries
                h1 i (IsShown-Grows seams ctx h h1 pid svc g1 shown) idle)
              (λ stayed h2 t2 u.
                let ok2 =
                  AreCandidates-Grows h h2 candidates (Grows-trans h h1 h2 g1 (Trail-Grows t2))
                    ok in
                Runs-if Whatever stayed _ _ h2 (monitor-Runs lines candidates failed h2 ok2)
                  (monitor-Runs lines candidates (failed ++ (svc.name ∷ [])) h2 ok2))))

pub finish-Runs :
    (seams : Seams) (ctx : SessionContext) (retry : Bool) (panes : Dict Text ℕ)
    (services : List Service) (lines : Dict Text Text) (h : Trace)
    → AreShown seams ctx h panes
    → Runs (OnlyStarts seams ctx services) Whatever (finish seams ctx retry panes services lines) h
unfolding finish await_startup
finish-Runs seams ctx retry panes services lines h shown =
    Runs-bind _ Whatever _ _ h (Runs-act _ _ h tt) (λ u h1 t1 e1.
      Runs-if Whatever (not retry) _ _ h1 (Runs-any 0 h1) (
        Runs-bind Whatever Whatever (await_startup seams ctx panes services lines) _ h1
          (Runs-if Whatever (is_empty (startup_candidates panes services) || not seams.has_clock)
            (pure {A = List Text} []) _ h1 (Runs-any [] h1)
            (Runs-bind _ Whatever (Host.act (seams.outside) (Host.sleep (pos 500000)))
              (λ _. monitor seams ctx lines (startup_candidates panes services) []) h1
              (Runs-act (seams.outside) (Host.sleep (pos 500000)) h1 tt)
              (λ u2 h2 t2 e2.
                monitor-Runs seams ctx services lines (startup_candidates panes services) [] h2 (
                  startup_candidates-shown seams ctx services panes services h2
                    (AreShown-Grows seams ctx h h2 panes
                      (Grows-trans h h1 h2 (Trail-Grows t1) (Trail-Grows t2)) shown)
                    (All-In services)))))
          (λ failed h3 t3 u3.
            let told = Host.write (Host.retries_failed (join (codes ", ") failed)) in
            Runs-if Whatever (is_empty failed) (pure {A = ℕ} 0)
              (Host.act (seams.outside) told >> pure 1) h3 (Runs-any 0 h3)
              (Runs-bind _ Whatever (Host.act (seams.outside) told) (λ _. pure 1) h3
                (Runs-act (seams.outside) told h3 tt) (λ u4 h4 t4 e4. Runs-any 1 h4)))))
