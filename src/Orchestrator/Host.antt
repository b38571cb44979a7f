-- ===== src/Orchestrator/Host.antt =====
-- src/service_orchestrator/modules/orchestrate/tmux_repository.py, reaper.py, log_repository.py,
-- follow_clock.py, environment_source.py, layout_hook_runner.py and
-- src/service_orchestrator/core/winter_cli.py: the seams the orchestrator calls. What stands
-- behind a seam (tmux, the process table, the clock, the shell) is a function from the calls made
-- so far to the answer, so it may change after any call; the calls made are the state.
use winter_service_tmux.Prelude.{ℕ, Bool, true, false, Option, List, [], ◌∷◌, nat_eq, Text, text_eq}
use winter_service_tmux.Prelude.Int.{ℤ}
use winter_service_tmux.Prelude.Dict.{Dict}
use winter_service_tmux.Manifest.Model.{Seconds, Health}

-- Why a service's `env` table is refused.
pub data EnvFault : Type 0 where
  bad_key : Text → EnvFault
  nul_byte : Text → EnvFault
  malformed_reference : Text → Text → EnvFault

-- The exceptions, with the values their messages print; `unfinished` is a loop that is not over
-- after the rounds its model has. A `float` number of seconds since the epoch counts microseconds.
pub data Failure : Type 0 where
  service_env : Text → EnvFault → Failure
  unresolvable : Text → List (Text × Text) → Failure
  unknown_service : Text → List Text → Failure
  pane_not_found : Text → Text → Text → Failure
  targets_not_found : Text → List Text → Failure
  hook_failed : Text → Failure → Failure
  no_server : Text → Failure → Failure
  winter_cli_unavailable : Text → Failure
  file_not_found : Failure
  unfinished : Failure
  seam : Text → Failure

pub record PaneInfo : Type 0 where
  pub target : Text
  pub pid : ℕ

pub record DependencyStatus : Type 0 where
  pub state : Text
  pub health : Text

-- the result of a call that returns nothing
abbrev pub Done : Type 0
Done = Unit {0}

-- What is written to the terminal.
pub data Message : Type 0 where
  already_running : Text → Message
  hook_warning : Text → ℕ → Message
  prune_warning : Failure → Message
  waiting_for : Text → Message
  dependency_error : Text → Failure → Message
  dependency_timeout : Text → Text → Message
  started retries_failed : Text → Message
  retrying : Text → ℕ → ℤ → Text → Text → Message
  no_running_session : Text → Message
  stopped_some : List Text → Text → Message
  stopped_all : Text → Text → Message
  restarted : Text → Text → Text → Message
  scope_error : Text → Failure → Message
  no_match : Text → Message

-- The calls that change something outside, or wait for it.
pub data Action : Type 0 where
  new_session : Text → Text → Action
  kill_session : Text → Action
  send_keys : Text → Text → Text → Action
  reap_descendants : List ℕ → Action
  run_hook : Text → Dict Text Text → Text → Action
  ensure_log_dir : Text → Action
  delete_log : Text → Action
  sleep : Seconds → Action
  write : Message → Action

-- The calls that only look.
pub data Query : Type 0 where
  has_session list_windows list_panes : Text → Query
  tmux_env_value : Text → Query
  capture_pane : Text → Text → Query
  has_children : ℕ → Query
  child_uptime : ℕ → Query
  service_status : Text → Query
  now : Query
  mtime : Text → Query
  rotated_segments : Text → Text → Query
  scope_environment : Text → Text → Dict Text Text → Bool → Query
  env_file_environment : Text → Text → Dict Text Text → Query
  read_tail : Text → ℕ → Query
  is_healthy : Health → Dict Text Text → Text → Option Text → Option ℤ → Query

pub data Call : Type 0 where
  did : Action → Call
  asked : Query → Call

-- The calls made, the last first.
abbrev pub Trace : Type 0
Trace = List Call

pub data Result {ℓ} (A : Type ℓ) : Type ℓ where
  returned : A → Result A
  raised : Failure → Result A

-- The answers of what stands behind the seams, and whether an action succeeds.
pub record Outside : Type 0 where
  pub perform : Trace → Action → Result Done
  pub text_answer : Trace → Query → Result Text
  pub flag_answer : Trace → Query → Result Bool
  pub panes_answer : Trace → Query → Result (List PaneInfo)
  pub texts_answer : Trace → Query → Result (List Text)
  pub status_answer : Trace → Query → Result (Option DependencyStatus)
  pub time_answer : Trace → Query → Result ℕ
  pub uptime_answer : Trace → Query → Result (Option ℤ)
  pub env_answer : Trace → Query → Result (Dict Text Text)

abbrev pub M : Type 0 → Type 0
M A = Trace → Result A × Trace

infixl 5 ◌>>=◌ ◌>>◌
unfoldable pub ◌>>=◌ : {A B : Type 0} → M A → (A → M B) → M B
◌>>=◌ m f h = let (r, h') = m h in elim r [ returned a ↦ f a h' | raised e ↦ (raised e, h') ]

abbrev pub ◌>>◌ : {A B : Type 0} → M A → M B → M B
m >> k = m >>= λ _. k

unfoldable pub pure : {A : Type 0} → A → M A
pure a h = (returned a, h)

unfoldable pub throw : {A : Type 0} → Failure → M A
throw e h = (raised e, h)

-- An action is on record whether it succeeds or not.
unfoldable pub act : Outside → Action → M Done
act w a h = (w.perform h a, did a ∷ h)

unfoldable pub ask : {A : Type 0} → (Trace → Query → Result A) → Query → M A
ask answer q h = (answer h q, asked q ∷ h)

-- the exception as a value
unfoldable pub attempt : {A : Type 0} → M A → M (Result A)
attempt m h = let (r, h') = m h in (returned r, h')

-- `try: m except e: handler(e)`
unfoldable pub catch : {A : Type 0} → M A → (Failure → M A) → M A
catch m handler h =
    let (r, h') = m h in elim r [ returned a ↦ (returned a, h') | raised e ↦ handler e h' ]

-- `except OrchestratorError`
abbrev pub is_orchestrator_error : Failure → Bool
is_orchestrator_error (winter_cli_unavailable _) = false
is_orchestrator_error file_not_found = false
is_orchestrator_error unfinished = false
is_orchestrator_error _ = true

unfoldable pub for_each : {A : Type 0} → List A → (A → M Done) → M Done
for_each [] f = pure tt
for_each (x ∷ xs) f = f x >> for_each xs f

-- The actions of a trace, the last first.
unfoldable pub actions : Trace → List Action
actions [] = []
actions (did a ∷ h) = a ∷ actions h
actions (asked q ∷ h) = actions h
