-- ===== src/Manifest/Validator/Checks.antt =====
-- The checks of `ManifestValidator` in src/service_manifest/modules/manifest/validator.py. Each check returns
-- the violations that the source's check appends. `re.compile` is a parameter that gives the
-- error's text for a text that is no regular expression; the values of an environment table are
-- texts, so the branches for other values have no counterpart.
use winter_service_tmux.Prelude.{
  Bool, not, ◌&&◌, ◌||◌, Option, none, some, List, [], ◌∷◌, ◌++◌, map, ltb, if◌then◌else◌, ◌==◌,
  nat_eq, Text, text_eq, contains, length, filter,
}
use winter_service_tmux.Prelude.Int.{ℤ, pos, ltb_ℤ, leb_ℤ, int_eq}
use winter_service_tmux.Prelude.{pair_eq}
use winter_service_tmux.Prelude.Dict.{Dict, keys, insert, get_or, update}
use winter_service_tmux.Prelude.Str.{codes, strip, starts_with}
use winter_service_tmux.Manifest.Model.{
  Service, ServiceManifest, HealthType, url, cmd, log, uptime, Port, literal, expression,
  parse_port_expression, parse_uptime_duration,
}
use winter_service_tmux.Manifest.Env.{
  interpolate, is_valid_env_name, malformed_references, resolve_service_env,
}
use winter_service_tmux.Manifest.ScopePath.{isabs, escapes}
use winter_service_tmux.Manifest.Violation.{
  Label, Violation, service, workspace_service, blank_name, duplicate_name, duplicate_target,
  negative_window, negative_pane, rotate_size_not_positive, negative_max_rotations,
  negative_retention, empty_health_target, timeout_not_positive, log_probe_interactive,
  invalid_regex, uptime_probe_interactive, invalid_duration, negative_retries, negative_retry_delay,
  startup_interactive, port_not_positive, invalid_port_expression, absolute_cwd, escaping_cwd,
  invalid_env_key, nul_in_env, malformed_reference, unresolvable_variable,
}
use winter_service_tmux.Manifest.Validator.Base.{report, for_each, is_interactive}

abbrev pub is_blank : Text → Bool
is_blank s = s == [] || strip s == []

abbrev pub scoped : ServiceManifest → List (Service × Label)
scoped m =
    map (λ s. (s, service)) m.services ++ map (λ s. (s, workspace_service)) m.workspace_services

-- the loop of `_check_service_names`, with the names seen so far
unfoldable pub check_names : List (Service × Label) → List Text → List Violation
unfolding strip contains
check_names [] seen = []
check_names ((svc, label) ∷ rest) seen =
    let skipped = check_names rest seen in
    let added = check_names rest (svc.name ∷ seen) in
    if is_blank svc.name
    then blank_name label svc.target ∷ skipped
    else if contains svc.name seen
    then duplicate_name svc.name ∷ skipped
    else added

unfoldable pub check_service_names : ServiceManifest → List Violation
unfolding check_names
check_service_names m = check_names (scoped m) []

abbrev pub target_key : Service → ℤ × ℤ
target_key svc = (svc.target.window, svc.target.pane)

-- `target_to_names`
unfoldable pub target_names : List Service → Dict (ℤ × ℤ) (List Text) → Dict (ℤ × ℤ) (List Text)
unfolding insert get_or
target_names [] d = d
target_names (svc ∷ services) d =
    target_names services
      (insert (target_key svc) (get_or (target_key svc) [] d ++ (svc.name ∷ [])) d)

abbrev pub shared : Label → (ℤ × ℤ) × List Text → List Violation
shared label ((window, pane), names) =
    report (ltb 1 (length names)) (duplicate_target window pane label names)

unfoldable pub check_duplicate_targets : Label → List Service → List Violation
unfolding target_names for_each
check_duplicate_targets label services = for_each (shared label) (target_names services [])

unfoldable pub target_non_negative : Label → Service → List Violation
target_non_negative label svc =
    report (ltb_ℤ svc.target.window (pos 0)) (negative_window label svc.name svc.target.window)
    ++ report (ltb_ℤ svc.target.pane (pos 0)) (negative_pane label svc.name svc.target.pane)

unfoldable pub check_log_config : ServiceManifest → List Violation
check_log_config m =
    report (leb_ℤ m.logs.rotate_size_bytes (pos 0))
      (rotate_size_not_positive m.logs.rotate_size_bytes)
    ++ report (ltb_ℤ m.logs.max_rotations (pos 0)) (negative_max_rotations m.logs.max_rotations)
    ++ report (ltb_ℤ m.logs.retention_seconds (pos 0)) (negative_retention m.logs.retention_seconds)

-- the tests of one type of probe, on the stripped command and target
abbrev probe_config : (Text → Option Text) → Label → Service → HealthType → Text → List Violation
probe_config regex_error label svc url target = []
probe_config regex_error label svc cmd target = []
probe_config regex_error label svc log target =
    if is_interactive svc
    then log_probe_interactive label svc.name ∷ []
    else if strip target == []
    then []
    else elim (regex_error target) [
      | none ↦ []
      | some error ↦ invalid_regex label svc.name error ∷ []
    ]
probe_config regex_error label svc uptime target =
    if is_interactive svc
    then uptime_probe_interactive label svc.name ∷ []
    else if strip target == []
    then []
    else elim (parse_uptime_duration target) [
      | some _ ↦ []
      | none ↦ invalid_duration label svc.name target ∷ []
    ]

abbrev timeout_config : Label → Text → Option ℤ → List Violation
timeout_config label name none = []
timeout_config label name (some t) = report (leb_ℤ t (pos 0)) (timeout_not_positive label name t)

unfoldable pub health_config : (Text → Option Text) → Label → Service → List Violation
unfolding strip is_interactive parse_uptime_duration
health_config regex_error label svc = elim svc.health [
  | none ↦ []
  | some health ↦
      report (strip health.target == []) (empty_health_target label svc.name)
      ++ timeout_config label svc.name health.timeout
      ++ probe_config regex_error label svc health.type health.target
]

unfoldable pub startup_config : Label → Service → List Violation
unfolding is_interactive
startup_config label svc = elim svc.startup [
  | none ↦ []
  | some startup ↦
      report (ltb_ℤ startup.retries (pos 0)) (negative_retries label svc.name startup.retries)
      ++ report (ltb_ℤ startup.retry_delay (pos 0))
          (negative_retry_delay label svc.name startup.retry_delay)
      ++ report (ltb_ℤ (pos 0) startup.retries && is_interactive svc)
          (startup_interactive label svc.name)
]

abbrev port_value : Label → Text → Port → List Violation
port_value label name (literal n) = report (leb_ℤ n (pos 0)) (port_not_positive label name n)
port_value label name (expression e) = elim (parse_port_expression e) [
  | some _ ↦ []
  | none ↦ invalid_port_expression label name e ∷ []
]

unfoldable pub port_config : Label → Service → List Violation
unfolding parse_port_expression
port_config label svc = elim svc.port [ none ↦ [] | some port ↦ port_value label svc.name port ]

unfoldable pub cwd_config : Label → Service → List Violation
unfolding isabs escapes
cwd_config label svc = elim svc.cwd [
  | none ↦ []
  | some cwd ↦
      if isabs cwd
      then absolute_cwd label svc.name cwd ∷ []
      else report (escapes cwd) (escaping_cwd label svc.name cwd)
]

abbrev env_entry : Label → Text → Text × Text → List Violation
env_entry label name (key, value) =
    report (not (is_valid_env_name key)) (invalid_env_key label name key)
    ++ report (contains 0 value) (nul_in_env label name key)
    ++ map (λ reference. malformed_reference label name key reference) (malformed_references value)

unfoldable pub service_env : Label → Service → List Violation
unfolding is_valid_env_name malformed_references contains for_each
service_env label svc = for_each (env_entry label svc.name) svc.env

abbrev is_unresolvable : Dict Text Text → Text → Bool
is_unresolvable mapping var = not (contains var (keys mapping) || starts_with var (codes "WINTER_"))

abbrev target_vars : Dict Text Text → Label → Service → Text → List Violation
target_vars env label svc target =
    let (resolved, _) = resolve_service_env svc.env env in
    let (_, unresolved) = interpolate target (update env resolved) in
    map (λ var. unresolvable_variable label svc.name var)
      (filter (is_unresolvable svc.env) unresolved)

abbrev probe_vars : Dict Text Text → Label → Service → HealthType → Text → List Violation
probe_vars env label svc log target = []
probe_vars env label svc _ target = target_vars env label svc target

unfoldable pub health_vars : Dict Text Text → Label → Service → List Violation
unfolding resolve_service_env interpolate update filter contains keys starts_with
health_vars env label svc = elim svc.health [
  | none ↦ []
  | some health ↦ probe_vars env label svc health.type health.target
]
