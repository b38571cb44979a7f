-- ===== src/Lib.antt =====
-- A model of winter-service-tmux, the provider that runs the services of a winter workspace in
-- tmux sessions, and its correctness.
--
-- The program. A manifest (src/service_manifest/modules/manifest) declares services, each with the
-- window and pane of its target, a command, an environment and its dependencies. The
-- orchestrator (src/service_orchestrator/modules/orchestrate/orchestrator_service.py) brings the
-- session of a scope up and down, restarts services and reports on them; it types a launch line
-- (status_report.py) into each pane. A line may pipe its output through the capture writer
-- (src/service_orchestrator/logwriter.py), which keeps rotated files; the log repository
-- (internal/local_log_repository.py) reads them, and the log service (log_service.py) merges,
-- filters and follows them. The selector (selector_service.py) expands patterns to services.
--
-- The files.
--   Prelude: shared notation and lemmas; Prelude/Str has Python's operations on `str`, Prelude/Dict
--     its `dict`, Prelude/Paths its paths, Prelude/Counts counts in a list. A text is the list of
--     its code points, and a path is its text.
--   Manifest/Model, Manifest/Env: model.py and env.py, with the same names; Manifest/Env/Pieces:
--     what the references of a template are.
--   Manifest/Toml, Manifest/Reader: the values of a TOML document and reader.py; Merge is the
--     overlay, Entry and Services the fields of a service, Document the document and its two files;
--     Keyed and Overlay: theorems.
--   Manifest/ExtReader: ext_reader.py; ExtReader/Names: its theorems.
--   Manifest/Validator: validator.py, with its checks in Checks and DependsOn and their messages in
--     Manifest/Violation; Manifest/Cycle is its depth-first search and Manifest/ScopePath the
--     paths it normalizes. Acyclic, Namespace, Targets and Clean, Cycle/Decides and
--     ScopePath/Inside: theorems.
--   Launch: status_report.py; Launch/Quoting: how a shell reads the words of a launch line;
--     Launch/Expansion: that it reads what the preflight has interpolated.
--   Orchestrator/Host: the seams (tmux_repository.py, reaper.py, log_repository.py,
--     follow_clock.py, environment_source.py, layout_hook_runner.py, winter_cli.py). An operation is
--     a function from the calls made so far to a result and the calls made then; what stands behind
--     the seams is a record of functions from the calls made so far to the answers, a parameter.
--   Orchestrator/Context: session_context.py and session_context_builder.py; Order:
--     `_topological_order`; Environment: the launch lines and environments; Wait: the waits; Prune:
--     `_prune`; Start: `up`; Stop: `down` and `restart_services`; Status: `status_env_document`.
--   Orchestrator/Effects: the actions of an operation as a postcondition; Preflight, Plan, Restart,
--     Untouched, Selection, Waiting, Idle, Retries, Partial and Fresh: theorems. Trails: actions
--     with the calls made before them; Lines: what the launch lines are. Results: what an
--     operation returns as a postcondition. Order/Release to Order/ByName: the steps of the
--     order of launches; Order/Launch and Order/Validated: its theorems.
--   Dispatch, Dispatch/Scopes: dispatch_service.py, `restart_selected` and the other operations on
--     scopes, Dispatch/Logs its logs; Preflight, Writes, Covers, Codes and Matching: theorems.
--   Logwriter: the capture writer; Rotation, Loop, Bounds, Segments, Stamp, StampOrder: theorems.
--     The files of a service are a function from the number of a segment to its bytes.
--   LogRepository, with Polling and Segments; LogService, with Merge, Filters, Follow, RoundTrip;
--     LogService/Backlog is `logs`, and Kept its theorem.
--   Pattern, Selector, Request, TmuxServer: pattern_match.py, selector_service.py and
--     env_enumerator.py, request_parser.py and log_query.py, tmux_server.py.
--   Reaper: pgrep_process_reaper.py; Signals and Depth: its theorems.
--   Tests: the theorems on concrete cases.
--
-- Numbers and bounds. A `float` number of seconds counts microseconds. The wait for a dependency
-- polls once for each second of its timeout and twice more, which is enough where the clock keeps
-- time over a sleep; an infinite timeout, where the code polls until the service is ready, gets
-- two polls and then counts as unfinished. `scan` of a template and `tokens` of a glob take a
-- character in each round;
-- `kahn` takes a name in each round; `digits_before` a digit. A reaping takes one call
-- more than processes stand below each other. The search for a cycle of dependencies
-- goes one white name deeper in each call, so one call more than there are names is enough.
--
-- The digits of `\d` and `int` are those of Unicode 15.1; the limit that Python sets on the
-- digits that `int` converts is left out.
--
-- Not modelled: the parsing of TOML text, the loop of `follow_streams`, the two doors and their
-- printing, and the adapters that run programs. UTF-8 decoding of log files and of the
-- capture writer's input is a parameter. Python's `float` is a parameter of the orchestrator.
pub mod Prelude
pub mod Manifest
pub mod Logwriter
pub mod LogRepository
pub mod LogService
pub mod Launch
pub mod Reaper
pub mod Orchestrator
pub mod Pattern
pub mod Selector
pub mod Request
pub mod TmuxServer
mod Tests
pub mod Dispatch
