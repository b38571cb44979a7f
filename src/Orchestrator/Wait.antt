-- ===== src/Orchestrator/Wait.antt =====
-- The waits of orchestrator_service.py: for dependencies before a launch, and for services to stay
-- up after it.
use winter_service_tmux.Prelude.{
  ℕ, zero, suc, ◌+◌, ◌/◌, Bool, true, false, not, ◌&&◌, ◌||◌, Option, none, some, List, [], ◌∷◌,
  ◌++◌, ltb, leb, if◌then◌else◌, ◌==◌, nat_eq, Text, text_eq, contains,
}
use winter_service_tmux.Prelude.Int.{ℤ, pos, ltb_ℤ, pos_part}
use winter_service_tmux.Prelude.Dict.{Dict, lookup, get_or}
use winter_service_tmux.Prelude.Str.{codes}
use winter_service_tmux.Manifest.Model.{Seconds, Service}
use winter_service_tmux.Orchestrator.Host.{
  M, pure, throw, act, ask, ◌>>=◌, ◌>>◌, unfinished, DependencyStatus, service_status, now, sleep,
  write, waiting_for, has_children, reap_descendants, retrying, send_keys,
}
use winter_service_tmux.Orchestrator.Context.{
  SessionContext, Seams, Float, microseconds, infinite, session, target_of, is_empty,
}

unfoldable pub dependency_ready : Option DependencyStatus → Bool
dependency_ready none = false
dependency_ready (some status) =
    status.health == codes "healthy"
    || (status.health == codes "unknown" && status.state == codes "running")

-- microseconds
abbrev pub depends_on_timeout : ℕ
depends_on_timeout = 120000000

abbrev pub poll_interval : ℕ
poll_interval = 1000000

abbrev positive_or_default : Option Float → Float
positive_or_default none = microseconds depends_on_timeout
positive_or_default (some infinite) = infinite
positive_or_default (some (microseconds value)) =
    microseconds (if ltb 0 value then value else depends_on_timeout)

-- `_depends_on_timeout_seconds`
unfoldable pub depends_on_timeout_seconds : Seams → Float
depends_on_timeout_seconds seams = elim (lookup (codes "WINTER_SERVICE_TIMEOUT") (seams.environ)) [
  | none ↦ microseconds depends_on_timeout
  | some raw ↦
      if is_empty raw
      then microseconds depends_on_timeout
      else positive_or_default (seams.float_of raw)
]

abbrev pub deadline_from : ℕ → Float → Float
deadline_from start (microseconds timeout) = microseconds (start + timeout)
deadline_from start infinite = infinite

abbrev pub is_over : Float → ℕ → Bool
is_over (microseconds deadline) t = leb deadline t
is_over infinite t = false

-- One poll for each interval within the timeout, and two more. Without a deadline the source polls
-- until the dependency is ready, and the model stops as `unfinished` after two polls.
abbrev pub rounds : Float → ℕ
rounds (microseconds timeout) = suc (suc (timeout / poll_interval))
rounds infinite = 2

-- The loop of `_wait_for_dependency`, a round for each poll.
unfoldable pub poll : Seams → Text → Float → ℕ → M Bool
unfolding dependency_ready
poll seams pattern deadline zero = throw unfinished
poll seams pattern deadline (suc fuel) =
    let again = poll seams pattern deadline fuel in
    (do
      status ← ask (seams.outside.status_answer) (service_status pattern)
      if dependency_ready status then pure true else (do
        t ← ask (seams.outside.time_answer) now
        if is_over deadline t
            then pure false
            else (do act (seams.outside) (sleep (pos poll_interval)); again)))

unfoldable pub wait_for_dependency : Seams → Text → M Bool
unfolding poll depends_on_timeout_seconds
wait_for_dependency seams pattern = do
  act (seams.outside) (write (waiting_for pattern))
  start ← ask (seams.outside.time_answer) now
  poll seams pattern (deadline_from start (depends_on_timeout_seconds seams))
      (rounds (depends_on_timeout_seconds seams))

unfoldable pub qualified : SessionContext → Text → Text
qualified ctx pattern = if contains b'/' pattern then pattern else ctx.env ++ (b'/' ∷ pattern)

unfoldable pub await_patterns : Seams → SessionContext → List Text → M (Option Text)
unfolding wait_for_dependency qualified
await_patterns seams ctx [] = pure none
await_patterns seams ctx (pattern ∷ patterns) =
    let later = await_patterns seams ctx patterns in
    (do
      ready ← wait_for_dependency seams (qualified ctx pattern)
      if ready then later else pure (some (qualified ctx pattern)))

-- `_await_dependencies`: the first dependency that is not ready in time.
unfoldable pub await_dependencies : Seams → SessionContext → Service → M (Option Text)
unfolding await_patterns
await_dependencies seams ctx svc =
    if seams.has_winter_cli && seams.has_clock
    then await_patterns seams ctx (svc.depends_on)
    else pure none

-- the retries of a service, above 0, and the delay after each
unfoldable pub startup_policy : Service → Option (ℕ × Seconds)
startup_policy svc = elim (svc.startup) [
  | none ↦ none
  | some policy ↦
      if ltb_ℤ (pos 0) (policy.retries) && not (is_empty (svc.cmd))
      then some (pos_part (policy.retries), policy.retry_delay)
      else none
]

unfoldable pub startup_candidates : Dict Text ℕ → List Service → List (Service × ℕ × ℕ × Seconds)
unfolding startup_policy target_of
startup_candidates pane_pids [] = []
startup_candidates pane_pids (svc ∷ services) =
    let more = startup_candidates pane_pids services in
    elim (startup_policy svc) [
      | none ↦ more
      | some (retries, delay) ↦ elim (lookup (target_of svc) pane_pids) [
        | none ↦ more
        | some pid ↦ (svc, pid, retries, delay) ∷ more
      ]
    ]

-- The attempts from `attempt` on, `left` of them; whether one stays up.
unfoldable pub retry_launch :
    Seams → SessionContext → Service → ℕ → Text → ℤ → Seconds → ℕ → ℕ → M Bool
unfolding target_of session
retry_launch seams ctx svc pid line retries delay attempt zero = pure false
retry_launch seams ctx svc pid line retries delay attempt (suc left) =
    let next = retry_launch seams ctx svc pid line retries delay (suc attempt) left in
    (do
      act (seams.outside) (reap_descendants (pid ∷ []))
      act (seams.outside)
          (write (retrying (svc.name) attempt retries (session ctx) (target_of svc)))
      act (seams.outside) (send_keys (session ctx) (target_of svc) line)
      act (seams.outside) (sleep delay)
      alive ← ask (seams.outside.flag_answer) (has_children pid)
      if alive then pure true else next)

-- The loop of `_await_startup`, with the names that failed so far.
unfoldable pub monitor :
    Seams
    → SessionContext
    → Dict Text Text
    → List (Service × ℕ × ℕ × Seconds)
    → List Text
    → M (List Text)
unfolding retry_launch
monitor seams ctx lines [] failed = pure failed
monitor seams ctx lines ((svc, pid, retries, delay) ∷ candidates) failed =
    let well = monitor seams ctx lines candidates failed in
    let ill = monitor seams ctx lines candidates (failed ++ (svc.name ∷ [])) in
    (do
      alive ← ask (seams.outside.flag_answer) (has_children pid)
      if alive then well else (do
        stayed ←
            retry_launch seams ctx svc pid (get_or (svc.name) [] lines) (pos retries) delay 1
              retries
        if stayed then well else ill))

-- `_await_startup`; the window before the first look is half a second.
unfoldable pub await_startup :
    Seams → SessionContext → Dict Text ℕ → List Service → Dict Text Text → M (List Text)
unfolding startup_candidates monitor
await_startup seams ctx pane_pids services lines =
    let candidates = startup_candidates pane_pids services in
    if is_empty candidates || not (seams.has_clock)
    then pure []
    else (do act (seams.outside) (sleep (pos 500000)); monitor seams ctx lines candidates [])
