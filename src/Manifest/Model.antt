-- ===== src/Manifest/Model.antt =====
-- src/service_manifest/modules/manifest/model.py. A `float` number of seconds is a signed count of
-- microseconds.
use winter_service_tmux.Prelude.{
  ℕ, ◌+◌, ◌*◌, ◌≡◌, refl, Bool, Option, none, some, List, [], ◌∷◌, ◌++◌, if◌then◌else◌, ◌==◌,
  nat_eq, Text, text_eq, text_beq,
}
use winter_service_tmux.Prelude.Int.{ℤ, pos}
use winter_service_tmux.Prelude.Dict.{Dict}
use winter_service_tmux.Prelude.Str.{codes, strip, strip_prefix, lstrip, digit_value}

pub data LogMode : Type 0 where
  file pane memory : LogMode

pub data HealthType : Type 0 where
  url cmd log uptime : HealthType

abbrev pub Seconds : Type 0
Seconds = ℤ

pub record Health : Type 0 where
  pub type : HealthType
  pub target : Text
  pub timeout : Option Seconds

pub record StartupPolicy : Type 0 where
  pub retries : ℤ
  pub retry_delay : Seconds

pub record LogConfig : Type 0 where
  pub rotate_size_bytes : ℤ
  pub max_rotations : ℤ
  pub retention_seconds : ℤ

abbrev pub default_logs : LogConfig
default_logs = record {
  rotate_size_bytes = pos 10485760;
  max_rotations = pos 5;
  retention_seconds = pos 604800;
}

pub record Target : Type 0 where
  pub window : ℤ
  pub pane : ℤ

pub data Port : Type 0 where
  literal : ℤ → Port
  expression : Text → Port

pub record Service : Type 0 where
  pub name : Text
  pub target : Target
  pub cmd : Text
  pub log : LogMode
  pub health : Option Health
  pub startup : Option StartupPolicy
  pub port : Option Port
  pub cwd : Option Text
  pub depends_on : List Text
  pub env : Dict Text Text

pub record ServiceManifest : Type 0 where
  pub session_prefix : Option Text
  pub env_file : Option Text
  pub layout_hook : Option Text
  pub services : List Service
  pub logs : LogConfig
  pub workspace_services : List Service
  pub workspace_layout_hook : Option Text

-- The text without its digits in front, and their value; `none` where there is none.
unfoldable pub take_digits : ℕ → Text → ℕ × Text
unfolding digit_value
take_digits n [] = (n, [])
take_digits n (c ∷ s) = elim (digit_value c) [
  | none ↦ (n, c ∷ s)
  | some d ↦ take_digits (n * 10 + d) s
]

abbrev leading_number : Text → Option (ℕ × Text)
leading_number [] = none
leading_number (c ∷ s) = elim (digit_value c) [ none ↦ none | some d ↦ some (take_digits d s) ]

abbrev is_blank : Text → Bool
is_blank s = lstrip s == []

-- `^\s*WINTER_PORT_BASE\s*\+\s*(\d+)\s*$`
unfoldable pub parse_port_expression : Text → Option ℕ
unfolding lstrip strip_prefix take_digits
parse_port_expression s = elim (strip_prefix (codes "WINTER_PORT_BASE") (lstrip s)) [
  | none ↦ none
  | some behind ↦ elim (strip_prefix (codes "+") (lstrip behind)) [
    | none ↦ none
    | some offset ↦ elim (leading_number (lstrip offset)) [
      | none ↦ none
      | some (n, end) ↦ if is_blank end then some n else none
    ]
  ]
]

abbrev unit_seconds : ℕ → Option ℕ
unit_seconds c =
    if c == b's'
    then some 1
    else if c == b'm'
    then some 60
    else if c == b'h'
    then some 3600
    else if c == b'd'
    then some 86400
    else none

abbrev with_unit : ℕ → Text → Option ℕ
with_unit n (c ∷ []) = elim (unit_seconds c) [ none ↦ none | some u ↦ some (n * u) ]
with_unit n _ = none

-- `^(\d+)([smhd])$` on the stripped text
unfoldable pub parse_uptime_duration : Text → Option ℕ
unfolding strip take_digits
parse_uptime_duration s = elim (leading_number (strip s)) [
  | none ↦ none
  | some (n, end) ↦ with_unit n end
]

durations :
    (parse_uptime_duration (codes " 5m") ≡ some 300)
    × (parse_uptime_duration (codes "5") ≡ none)
    × (parse_port_expression (codes "WINTER_PORT_BASE + 10") ≡ some 10)
    × (parse_port_expression (codes "WINTER_PORT_BASE 10") ≡ none)
    × (parse_port_expression (codes "WINTER_PORT_BASE + " ++ (65301 ∷ [])) ≡ some 5)
unfolding parse_uptime_duration parse_port_expression text_beq
durations = (refl, refl, refl, refl, refl)
