-- ===== src/Manifest/Reader/Entry.antt =====
-- `_parse_target` and `_parse_services` of src/service_manifest/modules/manifest/reader.py: one
-- function for each field of an entry, in the order of the source.
use winter_service_tmux.Prelude.{
  ℕ, Option, none, some, [], ◌∷◌, if◌then◌else◌, ◌==◌, nat_eq, Text, text_eq,
}
use winter_service_tmux.Prelude.Int.{ℤ, pos, int_eq, scale}
use winter_service_tmux.Prelude.Dict.{lookup}
use winter_service_tmux.Prelude.Str.{codes, split, to_int}
use winter_service_tmux.Manifest.Model
use winter_service_tmux.Manifest.Model.{
  LogMode, HealthType, Health, StartupPolicy, Port, Seconds, Service, Target,
}
use winter_service_tmux.Manifest.Toml.{
  Value, Fields, text, integer, float, boolean, table, fields, bool_int, is_falsy,
}
use winter_service_tmux.Manifest.Reader.Errors.{
  Outcome, ok, ◌>>=◌, refuse, missing_name, name_not_text, missing_target, bad_type,
  malformed_target, target_not_integers, invalid_log, invalid_health_type, missing_health_text,
}

-- `_parse_target`
unfoldable pub parse_target : Text → Text → Outcome Target
unfolding split to_int
parse_target raw name = elim (split b'.' raw) [
  | w ∷ p ∷ [] ↦ elim (to_int w) [
    | none ↦ refuse (target_not_integers name raw)
    | some window ↦ elim (to_int p) [
      | none ↦ refuse (target_not_integers name raw)
      | some pane ↦ ok (record { window = window; pane = pane })
    ]
  ]
  | _ ↦ refuse (malformed_target name raw)
]

abbrev name_value : ℕ → Value → Outcome Text
name_value i (text (c ∷ s)) = ok (c ∷ s)
name_value i v = if is_falsy v then refuse (missing_name i) else refuse (name_not_text i v)

unfoldable pub parse_name : ℕ → Fields → Outcome Text
unfolding lookup
parse_name i raw = elim (lookup (codes "name") raw) [
  | none ↦ refuse (missing_name i)
  | some v ↦ name_value i v
]

-- a field that holds a text, named `field` in the message
abbrev pub text_value : Text → Text → Value → Outcome Text
text_value name field (text s) = ok s
text_value name field v = refuse (bad_type name field v)

unfoldable pub parse_target_field : Text → Fields → Outcome Target
unfolding lookup parse_target ◌>>=◌
parse_target_field name raw = elim (lookup (codes "target") raw) [
  | none ↦ refuse (missing_target name)
  | some v ↦ text_value name (codes "target") v >>= λ s. parse_target s name
]

unfoldable pub parse_cmd : Text → Fields → Outcome Text
unfolding lookup
parse_cmd name raw = elim (lookup (codes "cmd") raw) [
  | none ↦ ok []
  | some v ↦ text_value name (codes "cmd") v
]

abbrev log_mode : Text → Text → Outcome LogMode
log_mode name s =
    if s == codes "file"
    then ok Model.file
    else if s == codes "pane"
    then ok Model.pane
    else if s == codes "memory"
    then ok Model.memory
    else refuse (invalid_log name s)

unfoldable pub parse_log : Text → Fields → Outcome LogMode
unfolding lookup ◌>>=◌
parse_log name raw = elim (lookup (codes "log") raw) [
  | none ↦ ok Model.file
  | some v ↦ text_value name (codes "log") v >>= λ s. log_mode name s
]

abbrev health_type : Text → Text → Outcome HealthType
health_type name s =
    if s == codes "url"
    then ok Model.url
    else if s == codes "cmd"
    then ok Model.cmd
    else if s == codes "log"
    then ok Model.log
    else if s == codes "uptime"
    then ok Model.uptime
    else refuse (invalid_health_type name s)

abbrev health_text : Text → Text → Fields → Outcome Text
health_text name field raw = elim (lookup field raw) [
  | none ↦ refuse (missing_health_text name field)
  | some v ↦ elim v [ text s ↦ ok s | _ ↦ refuse (missing_health_text name field) ]
]

-- `float(v)` of a number; a `bool` is one
abbrev seconds_value : Text → Text → Value → Outcome Seconds
seconds_value name field (integer n) = ok (scale 1000000 n)
seconds_value name field (float n) = ok n
seconds_value name field (boolean b) = ok (scale 1000000 (bool_int b))
seconds_value name field v = refuse (bad_type name field v)

abbrev health_timeout : Text → Fields → Outcome (Option Seconds)
health_timeout name raw = elim (lookup (codes "timeout") raw) [
  | none ↦ ok none
  | some v ↦ seconds_value name (codes "health.timeout") v >>= λ t. ok (some t)
]

abbrev health_value : Text → Value → Outcome (Option Health)
health_value name (table t) =
    let raw = fields t in
    health_text name (codes "type") raw >>= λ kind.
    health_text name (codes "target") raw >>= λ target. health_timeout name raw >>= λ timeout.
    health_type name kind >>= λ type.
    ok (some (record { type = type; target = target; timeout = timeout }))
health_value name v = refuse (bad_type name (codes "health") v)

unfoldable pub parse_health : Text → Fields → Outcome (Option Health)
unfolding lookup fields scale ◌>>=◌
parse_health name raw = elim (lookup (codes "health") raw) [
  | none ↦ ok none
  | some v ↦ health_value name v
]

abbrev retries_value : Text → Value → Outcome ℤ
retries_value name (integer n) = ok n
retries_value name (boolean b) = ok (bool_int b)
retries_value name v = refuse (bad_type name (codes "startup.retries") v)

abbrev startup_value : Text → Value → Outcome (Option StartupPolicy)
startup_value name (table t) =
    let raw = fields t in
    (elim (lookup (codes "retries") raw) [ none ↦ ok (pos 0) | some v ↦ retries_value name v ])
    >>= λ retries.
        (elim (lookup (codes "retry_delay") raw) [
          | none ↦ ok (pos 2000000)
          | some v ↦ seconds_value name (codes "startup.retry_delay") v
        ])
        >>= λ delay. ok (some (record { retries = retries; retry_delay = delay }))
startup_value name v = refuse (bad_type name (codes "startup") v)

unfoldable pub parse_startup : Text → Fields → Outcome (Option StartupPolicy)
unfolding lookup fields scale ◌>>=◌
parse_startup name raw = elim (lookup (codes "startup") raw) [
  | none ↦ ok none
  | some v ↦ startup_value name v
]
