-- ===== src/Manifest/Reader/Services.antt =====
-- `_parse_services` and `_build` of src/service_manifest/modules/manifest/reader.py.
use winter_service_tmux.Prelude.{
  ℕ, suc, ◌||◌, Option, none, some, List, [], ◌∷◌, ◌++◌, if◌then◌else◌, ◌==◌, nat_eq, Text, text_eq,
}
use winter_service_tmux.Prelude.Int.{int_eq}
use winter_service_tmux.Prelude.Dict.{Dict, lookup, insert}
use winter_service_tmux.Prelude.Str.{codes, strip_prefix}
use winter_service_tmux.Manifest.Model.{Port, literal, expression, Service}
use winter_service_tmux.Manifest.Toml.{Value, Fields, text, integer, array, table, items, fields}
use winter_service_tmux.Manifest.Reader.Errors.{Outcome, ok, ◌>>=◌, refuse, bad_type, invalid_scope}
use winter_service_tmux.Manifest.Reader.Entry.{
  parse_name, parse_target_field, parse_cmd, parse_log, parse_health, parse_startup, text_value,
}

abbrev scope_value : Text → Value → Outcome Text
scope_value name (text s) =
    if s == codes "project" || s == codes "workspace"
    then ok s
    else refuse (invalid_scope name (text s))
scope_value name v = refuse (invalid_scope name v)

unfoldable pub parse_scope : Text → Fields → Outcome Text
unfolding lookup
parse_scope name raw = elim (lookup (codes "scope") raw) [
  | none ↦ ok (codes "project")
  | some v ↦ scope_value name v
]

abbrev port_value : Text → Value → Outcome (Option Port)
port_value name (integer n) = ok (some (literal n))
port_value name (text s) = ok (some (expression s))
port_value name v = refuse (bad_type name (codes "port") v)

unfoldable pub parse_port : Text → Fields → Outcome (Option Port)
unfolding lookup
parse_port name raw = elim (lookup (codes "port") raw) [
  | none ↦ ok none
  | some v ↦ port_value name v
]

abbrev without_dot : Text → Text
without_dot s = elim (strip_prefix (codes "./") s) [ none ↦ s | some rest ↦ rest ]

unfoldable pub parse_cwd : Text → Fields → Outcome (Option Text)
unfolding lookup strip_prefix ◌>>=◌
parse_cwd name raw = elim (lookup (codes "cwd") raw) [
  | none ↦ ok none
  | some v ↦ text_value name (codes "cwd") v >>= λ s. ok (some (without_dot s))
]

unfoldable pub texts : Text → List Value → Outcome (List Text)
unfolding ◌>>=◌
texts name [] = ok []
texts name (v ∷ vs) =
    text_value name (codes "depends_on") v >>= λ s. texts name vs >>= λ more. ok (s ∷ more)

abbrev depends_on_value : Text → Value → Outcome (List Text)
depends_on_value name (array vs) = texts name (items vs)
depends_on_value name v = refuse (bad_type name (codes "depends_on") v)

unfoldable pub parse_depends_on : Text → Fields → Outcome (List Text)
unfolding lookup texts items
parse_depends_on name raw = elim (lookup (codes "depends_on") raw) [
  | none ↦ ok []
  | some v ↦ depends_on_value name v
]

-- the loop over the environment table
unfoldable pub env_of : Text → Fields → Dict Text Text → Outcome (Dict Text Text)
unfolding ◌>>=◌ insert
env_of name [] env = ok env
env_of name ((key, v) ∷ raw) env =
    text_value name (codes "env." ++ key) v >>= λ s. env_of name raw (insert key s env)

abbrev env_value : Text → Value → Outcome (Dict Text Text)
env_value name (table t) = env_of name (fields t) []
env_value name v = refuse (bad_type name (codes "env") v)

unfoldable pub parse_env : Text → Fields → Outcome (Dict Text Text)
unfolding lookup env_of fields
parse_env name raw = elim (lookup (codes "env") raw) [ none ↦ ok [] | some v ↦ env_value name v ]

-- one round of the loop: the service and its scope
unfoldable pub parse_service : ℕ → Fields → Outcome (Service × Text)
unfolding parse_name parse_target_field parse_cmd parse_log parse_health parse_startup parse_scope
    parse_port parse_cwd parse_depends_on parse_env ◌>>=◌
parse_service i raw = parse_name i raw >>= λ name. parse_target_field name raw >>= λ target.
    parse_cmd name raw >>= λ cmd. parse_log name raw >>= λ log. parse_health name raw >>= λ health.
    parse_startup name raw >>= λ startup. parse_scope name raw >>= λ scope.
    parse_port name raw >>= λ port. parse_cwd name raw >>= λ cwd.
    parse_depends_on name raw >>= λ depends_on. parse_env name raw >>= λ env.
    let svc : Service = record {
      name = name;
      target = target;
      cmd = cmd;
      log = log;
      health = health;
      startup = startup;
      port = port;
      cwd = cwd;
      depends_on = depends_on;
      env = env;
    } in
    ok (svc, scope)

unfoldable pub parse_services : ℕ → List Fields → Outcome (List (Service × Text))
unfolding parse_service ◌>>=◌
parse_services i [] = ok []
parse_services i (raw ∷ entries) =
    parse_service i raw >>= λ one. parse_services (suc i) entries >>= λ more. ok (one ∷ more)

-- `[svc for svc, scope in parsed_services if scope == which]`
unfoldable pub of_scope : Text → List (Service × Text) → List Service
of_scope which [] = []
of_scope which ((svc, scope) ∷ parsed) =
    let more = of_scope which parsed in if scope == which then svc ∷ more else more
