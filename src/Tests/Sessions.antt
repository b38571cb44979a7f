-- ===== src/Tests/Sessions.antt =====
-- Cases of the orchestrator: a session of two services, one of which runs.
use winter_service_tmux.Prelude.{
  ℕ, zero, suc, ◌+◌, ◌-◌, ◌*◌, ◌/◌, ◌%◌, ◌≤◌, ◌<◌, ◌≡◌, refl, sym, ap, ◌∙◌, ◌≢◌, ◌↔◌, ◌⊎◌, inl, inr,
  Bool, true, false, not, ◌&&◌, ◌||◌, Option, none, some, List, [], ◌∷◌, ◌++◌, map, append_assoc,
  append-nil, arith, ltb, leb, nat_beq, if◌then◌else◌, Bool-cases, Option-cases, Eq, ◌==◌, ==_iff,
  ==_refl, nat_eq, Text, text_eq, text_beq, text_beq_iff, contains, contains-append, length, take,
  drop, filter, any, all, length-append, take-append-drop, length-drop, drop-append, filter-append,
  length-filter-le, All, All-append,
}
use winter_service_tmux.Prelude.Int.{pos}
use winter_service_tmux.Prelude.Dict.{Dict}
use winter_service_tmux.Prelude.Str.{codes}
use winter_service_tmux.Manifest.Model.{Service, file, default_logs}
use winter_service_tmux.Orchestrator.Host
use winter_service_tmux.Orchestrator.Host.{
  Trace, Call, Action, Query, Result, returned, raised, Outside, PaneInfo, Failure, did, asked,
  actions, DependencyStatus,
}
use winter_service_tmux.Orchestrator.Context.{
  SessionContext, Seams, session, names_of, is_whole_scope, requested_services, target_services,
}
use winter_service_tmux.Orchestrator.Effects.{Acts, Trail}
use winter_service_tmux.Orchestrator.Order.{topological_order}
use winter_service_tmux.Orchestrator.Environment.{launch_lines_for}
use winter_service_tmux.Orchestrator.Restart.{Works, Restarts, restart_services-calls}
use winter_service_tmux.Orchestrator.Untouched.{OnlyReaps, down-OnlyReaps}
use winter_service_tmux.Orchestrator.Idle.{OnlyStarts}
use winter_service_tmux.Orchestrator.Partial.{up-OnlyStarts}
use winter_service_tmux.Orchestrator.Fresh.{
  IsClock, Answers, up-preflight, wait_for_dependency-ends,
}
use winter_service_tmux.Orchestrator.Wait.{wait_for_dependency}
use winter_service_tmux.Orchestrator.Start.{up}
use winter_service_tmux.Orchestrator.Stop.{down, restart_services}
use winter_service_tmux.Dispatch.{RestartTarget, restart_targets, restart_selected}
use winter_service_tmux.Dispatch.Covers.{CoversAll}
use winter_service_tmux.Dispatch.Writes.{IsWrite}
use winter_service_tmux.Dispatch.Preflight.{HasPassed, restart_selected-HasPassed}

abbrev pub elapsed : Call → ℕ
elapsed (did (Host.sleep (pos d))) = d
elapsed _ = 0

-- the time is the sleep so far
abbrev pub clock : Trace → ℕ
clock [] = 0
clock (c ∷ h) = clock h + elapsed c

abbrev pub has_child : Query → Bool
has_child (Host.has_children pid) = nat_beq pid 11
has_child (Host.has_session _) = true
has_child _ = false

abbrev pub panes : List PaneInfo
panes = record { target = codes "0.0"; pid = 11 } ∷ record { target = codes "1.0"; pid = 12 } ∷ []

abbrev pub machine : Bool → Outside
machine exists = record {
  perform = λ h a. returned tt;
  text_answer = λ h q. returned [];
  flag_answer = λ h q. returned (exists && has_child q);
  panes_answer = λ h q. returned panes;
  texts_answer = λ h q. returned [];
  status_answer = λ h q. returned none;
  time_answer = λ h q. returned (clock h);
  uptime_answer = λ h q. returned none;
  env_answer = λ h q. returned [];
}

abbrev pub seams : Bool → Seams
seams exists = record {
  outside = machine exists;
  process = record { executable = codes "/py"; ext_dir = none; package_dir = codes "/pkg" };
  environ = [];
  float_of = λ s. none;
  has_winter_cli = true;
  has_clock = true;
  has_health_checker = true;
}

abbrev pub service : Text → ℕ → Dict Text Text → Service
service name window env = record {
  name = name;
  target = record { window = pos window; pane = pos 0 };
  cmd = codes "run";
  log = file;
  health = none;
  startup = none;
  port = none;
  cwd = none;
  depends_on = [];
  env = env;
}

abbrev pub context : Dict Text Text → SessionContext
context env = record {
  env = codes "alpha";
  workspace_root = codes "/w";
  worktree_dir = codes "/w/alpha";
  config_dir = codes "/c";
  session_prefix = codes "mp";
  services = service (codes "db") 0 [] ∷ service (codes "web") 1 env ∷ [];
  layout_hook = none;
  logs = default_logs;
  env_vars = some [];
  inject_scope = none;
  env_file_path = none;
}

web_only : is_whole_scope (context []) (codes "web" ∷ []) ≡ false
unfolding is_whole_scope names_of contains text_beq all
web_only = refl

up-OnlyStarts_example :
    Trail
      (OnlyStarts
        (seams true)
        (context [])
        (requested_services (codes "web" ∷ []) ((context []).services)))
      []
      ((up (seams true) (context []) true (codes "web" ∷ []) []).1)
up-OnlyStarts_example =
    up-OnlyStarts (seams true) (context []) true (codes "web" ∷ []) web_only refl

down-OnlyReaps_example :
    Acts
      (OnlyReaps
        (seams true)
        (context [])
        (requested_services (codes "web" ∷ []) ((context []).services)))
      (down (seams true) (context []) (codes "web" ∷ []))
down-OnlyReaps_example = down-OnlyReaps (seams true) (context []) (codes "web" ∷ []) web_only

always : (exists : Bool) → Works (seams exists)
always exists h a = refl

restart_services-calls_example :
    ((e : Failure) × ((restart_services (seams true) (context []) (codes "web" ∷ []) []).0
        ≡ raised e)
      × (actions ((restart_services (seams true) (context []) (codes "web" ∷ []) []).1)
          ≡ actions []))
    ⊎ ((services : List Service) × (infos : List PaneInfo) × Restarts
          (seams true)
          (context [])
          (codes "web" ∷ [])
          []
          services
          infos)
restart_services-calls_example =
    restart_services-calls (seams true) (context []) (codes "web" ∷ []) (always true) []

abbrev bad_env : Dict Text Text
bad_env = (codes "1A", codes "x") ∷ []

abbrev refusal : Failure
refusal = Host.service_env (codes "web") (Host.bad_key (codes "1A"))

refused :
    launch_lines_for
      (seams false)
      (context bad_env)
      true
      (topological_order (target_services (context bad_env) []) (codes "alpha"))
      []
      (asked (Host.has_session (session (context bad_env))) ∷ [])
    ≡ (raised refusal, asked (Host.has_session (session (context bad_env))) ∷ [])
unfolding launch_lines_for topological_order target_services filter
    winter_service_tmux.Prelude.Dict.get_or winter_service_tmux.Prelude.Dict.insert text_beq
    winter_service_tmux.Prelude.Dict.lookup Host.◌>>=◌ Host.pure Host.throw
refused = refl

up-preflight_example :
    (up (seams false) (context bad_env) false [] []
      ≡ (raised refusal, asked (Host.has_session (session (context bad_env))) ∷ []))
    × (actions (asked (Host.has_session (session (context bad_env))) ∷ []) ≡ actions [])
up-preflight_example =
    up-preflight (seams false) (context bad_env) false [] []
      (asked (Host.has_session (session (context bad_env))) ∷ []) refusal refl refused

clock-IsClock : (exists : Bool) → IsClock (seams exists) clock
clock-IsClock exists = (λ h. refl, (λ h c. omega arith), (λ h d. omega arith))

no_status : Answers (seams true) (λ h pattern. none)
no_status h pattern = refl

wait_for_dependency-ends_example :
    (b : Bool) × ((wait_for_dependency (seams true) (codes "alpha/db") []).0 ≡ returned b)
unfolding winter_service_tmux.Orchestrator.Wait.depends_on_timeout_seconds
    winter_service_tmux.Prelude.Dict.lookup
wait_for_dependency-ends_example =
    wait_for_dependency-ends (seams true) clock (λ h pattern. none) (codes "alpha/db") 120000000 []
      refl (always true) (clock-IsClock true) no_status

-- The running `db` is passed over; `web` is launched.
partial_run : (up (seams true) (context []) false (codes "web" ∷ codes "x" ∷ []) []).0 ≡ returned 0
unfolding up Host.◌>>=◌ Host.ask all text_beq filter winter_service_tmux.Prelude.Dict.get_or
    winter_service_tmux.Prelude.Dict.insert winter_service_tmux.Prelude.Dict.lookup Host.pure
    Host.act Host.attempt
partial_run = refl

abbrev pub scopes : Text → Result SessionContext
scopes target = returned (context [])

abbrev pub selection : Dict Text (List Text)
selection = (codes "alpha", codes "web" ∷ []) ∷ []

restart_selected-HasPassed_example :
    ((new : List Action) × (actions ((restart_selected (seams true) scopes [] selection 0 []).1)
        ≡ new ++ actions [])
      × All IsWrite new)
    ⊎ ((targets : List RestartTarget) × (h' : Trace) × (new : List Action) × (restart_selected
            (seams true)
            scopes
            []
            selection
            0
            []
          ≡ restart_targets (seams true) targets 0 h')
        × CoversAll (seams true) scopes [] selection targets
        × All (HasPassed (seams true) [] h') targets
        × (actions h' ≡ new ++ actions [])
        × All IsWrite new)
restart_selected-HasPassed_example =
    restart_selected-HasPassed (seams true) scopes [] selection 0 []
