-- ===== src/Orchestrator/Fresh.antt =====
-- `up` of orchestrator_service.py where nothing may change: the session runs, or the preflight of a
-- new one fails; and the end of every wait for a dependency.
use winter_service_tmux.Prelude.{
  ℕ, zero, suc, ◌+◌, ◌*◌, ◌/◌, ◌≤◌, ◌<◌, ◌≡◌, refl, inl, inr, Bool, true, false, Option, List, [],
  ◌∷◌, arith, leb, if◌then◌else◌, Bool-cases, nat_eq, Text, text_eq,
}
use winter_service_tmux.Prelude.Int.{pos}
use winter_service_tmux.Manifest.Model.{Service}
use winter_service_tmux.Orchestrator.Host
use winter_service_tmux.Orchestrator.Host.{
  M, Done, Result, returned, raised, Trace, Action, Call, did, asked, Query, Failure,
  DependencyStatus, has_session, service_status, sleep, write, waiting_for, now, actions, ◌>>=◌,
  ◌>>◌,
}
use winter_service_tmux.Orchestrator.Effects.{Quiet-trace, bind-raised}
use winter_service_tmux.Orchestrator.Context.{
  SessionContext, Seams, microseconds, session, target_services,
}
use winter_service_tmux.Orchestrator.Order.{topological_order}
use winter_service_tmux.Orchestrator.Environment.{launch_lines_for}
use winter_service_tmux.Orchestrator.Preflight.{launch_lines_for-Acts}
use winter_service_tmux.Orchestrator.Restart.{Works}
use winter_service_tmux.Orchestrator.Wait.{
  poll, wait_for_dependency, dependency_ready, depends_on_timeout_seconds, poll_interval,
}
use winter_service_tmux.Orchestrator.Start.{up, up_new}

up_new-preflight :
    (seams : Seams) (ctx : SessionContext) (services : List Service) (retry : Bool) (h h' : Trace)
    (e : Failure)
    → launch_lines_for seams ctx true (topological_order services (ctx.env)) [] h ≡ (raised e, h')
    → up_new seams ctx services retry h ≡ (raised e, h')
unfolding up_new
up_new-preflight seams ctx services retry h h' e failed = bind-raised _ _ h h' e failed

-- Where there is no session and a launch line cannot be built, from any scope and selection, `up`
-- raises that failure and has made no call that changes anything: no session, no log pruned.
pub up-preflight :
    (seams : Seams) (ctx : SessionContext) (retry : Bool) (requested : List Text) (h h' : Trace)
    (e : Failure)
    → seams.outside.flag_answer h (has_session (session ctx)) ≡ returned false
    → launch_lines_for seams ctx true
        (topological_order (target_services ctx requested) (ctx.env))
        []
        (asked (has_session (session ctx)) ∷ h)
      ≡ (raised e, h')
    → (up seams ctx retry requested h ≡ (raised e, h')) × (actions h' ≡ actions h)
unfolding up ◌>>=◌ Host.ask actions
up-preflight seams ctx retry requested h h' e absent failed = (
  rw absent (up_new-preflight seams ctx (target_services ctx requested) retry _ h' e failed),
  Quiet-trace {h = asked (has_session (session ctx)) ∷ h}
      (launch_lines_for-Acts seams ctx true
        (topological_order (target_services ctx requested) (ctx.env)) [])
      failed,
)

-- Time does not run backwards, a sleep takes its time, and the looks and the pauses succeed.
abbrev pub IsClock : Seams → (Trace → ℕ) → Type 0
IsClock seams clock =
    ((h : Trace) → seams.outside.time_answer h now ≡ returned (clock h))
    × ((h : Trace) (c : Call) → clock h ≤ clock (c ∷ h))
    × ((h : Trace) (d : ℕ) → clock h + d ≤ clock (did (sleep (pos d)) ∷ h))

abbrev pub Answers : Seams → (Trace → Text → Option DependencyStatus) → Type 0
Answers seams statuses =
    (h : Trace) (pattern : Text)
    → seams.outside.status_answer h (service_status pattern) ≡ returned (statuses h pattern)

-- one round of the poll, whose next is `rest`
unfoldable round : Seams → Text → ℕ → M Bool → M Bool
unfolding dependency_ready
round seams pattern deadline rest = do
  status ← Host.ask (seams.outside.status_answer) (service_status pattern)
  if dependency_ready status then Host.pure true else (do
    t ← Host.ask (seams.outside.time_answer) now
    if leb deadline t
        then Host.pure false
        else (do Host.act (seams.outside) (sleep (pos poll_interval)); rest))

round-ends :
    (seams : Seams) (clock : Trace → ℕ) (statuses : Trace → Text → Option DependencyStatus)
    (pattern : Text) (deadline : ℕ) (h : Trace) (rest : M Bool)
    → Works seams
    → IsClock seams clock
    → Answers seams statuses
    → ((h' : Trace)
        → clock h + poll_interval ≤ clock h'
        → clock h < deadline
        → (b : Bool) × ((rest h').0 ≡ returned b))
    → (b : Bool) × ((round seams pattern deadline rest h).0 ≡ returned b)
unfolding round ◌>>=◌ Host.ask Host.act Host.pure
round-ends seams clock statuses pattern deadline h rest works ticks answers later =
    let h1 : Trace = asked (service_status pattern) ∷ h in
    let h2 : Trace = asked now ∷ h1 in
    let h3 : Trace = did (sleep (pos poll_interval)) ∷ h2 in
    elim (Bool-cases (dependency_ready (statuses h pattern))) [
      | inl ready ↦ rw (answers h pattern, ready) (true, refl)
      | inr waits ↦ elim (Bool-cases (leb deadline (clock h1))) [
        | inl over ↦ rw (answers h pattern, waits, ticks.0 h1, over) (false, refl)
        | inr early ↦
            let p1 : clock h ≤ clock h1 = ticks.1 h _ in
            let p2 : clock h1 ≤ clock h2 = ticks.1 h1 _ in
            let p3 : clock h2 + poll_interval ≤ clock h3 = ticks.2 h2 poll_interval in
            rw (answers h pattern, waits, ticks.0 h1, early, works h2 (sleep (pos poll_interval)))
              (later h3 (ground arith) (ground arith))
      ]
    ]

poll-ends :
    (seams : Seams) (clock : Trace → ℕ) (statuses : Trace → Text → Option DependencyStatus)
    (pattern : Text) (deadline fuel : ℕ) (h : Trace)
    → Works seams
    → IsClock seams clock
    → Answers seams statuses
    → deadline ≤ clock h + fuel * poll_interval
    → (b : Bool) × ((poll seams pattern (microseconds deadline) (suc fuel) h).0 ≡ returned b)
unfolding poll round
poll-ends seams clock statuses pattern deadline zero h works ticks answers enough =
    round-ends seams clock statuses pattern deadline h _ works ticks answers
      (λ h' passed early. absurd (ground arith))
poll-ends seams clock statuses pattern deadline (suc fuel) h works ticks answers enough =
    round-ends seams clock statuses pattern deadline h _ works ticks answers (λ h' passed early.
      poll-ends seams clock statuses pattern deadline fuel h' works ticks answers (ground arith))

-- Where the calls succeed and the clock keeps time over sleeps, the wait for any dependency ends
-- with an answer, whatever the statuses reported are and whatever the timeout is, as long as it is
-- finite.
pub wait_for_dependency-ends :
    (seams : Seams) (clock : Trace → ℕ) (statuses : Trace → Text → Option DependencyStatus)
    (pattern : Text) (timeout : ℕ) (h : Trace)
    → depends_on_timeout_seconds seams ≡ microseconds timeout
    → Works seams
    → IsClock seams clock
    → Answers seams statuses
    → (b : Bool) × ((wait_for_dependency seams pattern h).0 ≡ returned b)
unfolding wait_for_dependency ◌>>=◌ Host.ask Host.act
wait_for_dependency-ends seams clock statuses pattern timeout h finite works ticks answers =
    let h1 : Trace = did (write (waiting_for pattern)) ∷ h in
    let h2 : Trace = asked now ∷ h1 in
    let p : clock h1 ≤ clock h2 = ticks.1 h1 _ in
    rw (works h (write (waiting_for pattern)), ticks.0 h1, finite)
      (poll-ends seams clock statuses pattern (clock h1 + timeout) (suc (timeout / poll_interval))
        h2 works ticks answers (ground arith))
