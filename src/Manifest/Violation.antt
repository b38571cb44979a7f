-- ===== src/Manifest/Violation.antt =====
-- The messages of src/service_manifest/modules/manifest/validator.py: each constructor is one text
-- of the source with what the text is filled with.
use winter_service_tmux.Prelude.{List, nat_eq, Text, text_eq}
use winter_service_tmux.Prelude.Int.{ℤ}
use winter_service_tmux.Manifest.Model.{Target, Seconds}

-- the labels "service" and "workspace service"
pub data Label : Type 0 where
  service workspace_service : Label

pub data Violation : Type 0 where
  blank_name : Label → Target → Violation
  duplicate_name : Text → Violation
  duplicate_target : ℤ → ℤ → Label → List Text → Violation
  negative_window negative_pane : Label → Text → ℤ → Violation
  rotate_size_not_positive negative_max_rotations negative_retention : ℤ → Violation
  empty_health_target : Label → Text → Violation
  timeout_not_positive : Label → Text → Seconds → Violation
  log_probe_interactive : Label → Text → Violation
  invalid_regex : Label → Text → Text → Violation
  uptime_probe_interactive : Label → Text → Violation
  invalid_duration : Label → Text → Text → Violation
  negative_retries : Label → Text → ℤ → Violation
  negative_retry_delay : Label → Text → Seconds → Violation
  startup_interactive : Label → Text → Violation
  port_not_positive : Label → Text → ℤ → Violation
  invalid_port_expression : Label → Text → Text → Violation
  absolute_cwd escaping_cwd : Label → Text → Text → Violation
  invalid_env_key : Label → Text → Text → Violation
  nul_in_env : Label → Text → Text → Violation
  malformed_reference : Label → Text → Text → Text → Violation
  unresolvable_variable : Label → Text → Text → Violation
  self_dependency : Label → Text → Text → Violation
  unmatched_dependency : Label → Text → Text → Violation
  interactive_dependency : Label → Text → Text → Violation
  dependency_cycle : List Text → Violation
  search_out_of_fuel : Violation
