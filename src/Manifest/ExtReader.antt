-- ===== src/Manifest/ExtReader.antt =====
-- src/service_manifest/modules/manifest/ext_reader.py: the services that extensions declare, merged
-- into the manifest. A log warning is a value; the set of names is a list.
pub mod Names
use winter_service_tmux.Prelude.{
  ℕ, zero, suc, ◌+◌, ◌-◌, ◌*◌, ◌/◌, ◌%◌, ◌≤◌, ◌<◌, ◌≡◌, refl, sym, ap, ◌∙◌, subst, ◌≢◌, ◌↔◌, ◌⊎◌,
  inl, inr, Bool, true, false, not, ◌&&◌, ◌||◌, Option, none, some, List, [], ◌∷◌, ◌++◌, map,
  append_assoc, append-nil, arith, ltb, leb, nat_beq, if◌then◌else◌, Bool-cases, Option-cases, Eq,
  ◌==◌, ==_iff, ==_refl, nat_eq, Text, text_eq, text_beq, text_beq_iff, contains, contains-append,
  length, take, drop, filter, any, all, length-append, take-append-drop, length-drop, drop-append,
  filter-append, length-filter-le, All, All-append,
}
use winter_service_tmux.Prelude.Dict.{lookup}
use winter_service_tmux.Prelude.Str.{codes, split, to_int}
use winter_service_tmux.Manifest.Model.{Service, ServiceManifest, Target, file}
use winter_service_tmux.Manifest.Toml.{
  Value, Fields, text, integer, float, boolean, date, array, table, no_more, items, fields,
}
use winter_service_tmux.Manifest.Reader.Errors.{Outcome, ok, fails, uncaught, ◌>>=◌}

pub data Warning : Type 0 where
  cannot_read : Text → Text → Warning
  malformed_toml : Text → Text → Warning
  not_a_list : Text → Warning
  not_a_table : ℕ → Warning
  missing_name : ℕ → Warning
  already_declared : Text → Warning
  unknown_scope : Text → Value → Warning
  no_target : Text → Warning
  malformed_target : Text → Text → Warning
  target_not_integers : Text → Text → Warning
  cmd_not_text : Text → Warning
  deprecated_command : Text → Warning

pub data Scope : Type 0 where
  feature_environment : Scope
  workspace : Scope

-- `_parse_target`
unfoldable pub parse_target : Text → Text → Target ⊎ Warning
unfolding split to_int
parse_target name raw = elim (split b'.' raw) [
  | w ∷ p ∷ [] ↦ elim (to_int w) [
    | none ↦ inr (target_not_integers name raw)
    | some window ↦ elim (to_int p) [
      | none ↦ inr (target_not_integers name raw)
      | some pane ↦ inl (record { window = window; pane = pane })
    ]
  ]
  | _ ↦ inr (malformed_target name raw)
]

abbrev pub target_value : Text → Option Value → Target ⊎ Warning
target_value name (some (text (c ∷ s))) = parse_target name (c ∷ s)
target_value name _ = inr (no_target name)

unfoldable pub raw_target : Text → Fields → Target ⊎ Warning
unfolding lookup parse_target
raw_target name raw = target_value name (lookup (codes "target") raw)

-- an array and a table have no hash, and the test for membership raises
abbrev scope_value : Text → Value → Outcome (Scope ⊎ Warning)
scope_value name (text s) =
    if s == codes "workspace"
    then ok (inl workspace)
    else if s == codes "feature-environment"
    then ok (inl feature_environment)
    else ok (inr (unknown_scope name (text s)))
scope_value name (array _) = fails uncaught
scope_value name (table _) = fails uncaught
scope_value name v = ok (inr (unknown_scope name v))

unfoldable pub scope_of : Text → Fields → Outcome (Scope ⊎ Warning)
unfolding lookup
scope_of name raw = elim (lookup (codes "scope") raw) [
  | none ↦ ok (inl feature_environment)
  | some v ↦ scope_value name v
]

abbrev pub cmd_value : Text → Value → Option Text × List Warning
cmd_value name (text s) = (some s, [])
cmd_value name _ = (none, cmd_not_text name ∷ [])

-- `cmd`, or else the deprecated `command`; `none` where it is no text
abbrev pub either_cmd : Text → Option Value → Option Value → Option Text × List Warning
either_cmd name (some v) _ = cmd_value name v
either_cmd name none none = (some [], [])
either_cmd name none (some v) =
    let (cmd, warned) = cmd_value name v in (cmd, deprecated_command name ∷ warned)

unfoldable pub cmd_of : Text → Fields → Option Text × List Warning
unfolding lookup
cmd_of name raw = either_cmd name (lookup (codes "cmd") raw) (lookup (codes "command") raw)

abbrev pub ext_service : Text → Target → Text → Service
ext_service name target cmd = record {
  name = name;
  target = target;
  cmd = cmd;
  log = file;
  health = none;
  startup = none;
  port = none;
  cwd = none;
  depends_on = [];
  env = [];
}

-- what an entry adds, and what is logged
abbrev pub Entry : Type 0
Entry = Option (Scope × Service) × List Warning

abbrev pub with_cmd : Text → Scope → Target → Option Text × List Warning → Entry
with_cmd name scope target (none, warned) = (none, warned)
with_cmd name scope target (some cmd, warned) = (some (scope, ext_service name target cmd), warned)

abbrev pub with_target : Text → Fields → Scope → Target ⊎ Warning → Entry
with_target name raw scope (inr warning) = (none, warning ∷ [])
with_target name raw scope (inl target) = with_cmd name scope target (cmd_of name raw)

abbrev pub with_scope : Text → Fields → Scope ⊎ Warning → Entry
with_scope name raw (inr warning) = (none, warning ∷ [])
with_scope name raw (inl scope) = with_target name raw scope (raw_target name raw)

-- the rest of a round for an entry with a name
unfoldable pub read_named : Text → Fields → List Text → Outcome Entry
unfolding scope_of raw_target cmd_of ◌>>=◌
read_named name raw existing_names =
    if contains name existing_names
    then ok (none, already_declared name ∷ [])
    else scope_of name raw >>= λ scope. ok (with_scope name raw scope)

abbrev pub read_fields : ℕ → Fields → Option Value → List Text → Outcome Entry
read_fields i raw (some (text (c ∷ s))) existing_names = read_named (c ∷ s) raw existing_names
read_fields i raw _ existing_names = ok (none, missing_name i ∷ [])

unfoldable pub read_entry : ℕ → Value → List Text → Outcome Entry
unfolding read_named lookup fields
read_entry i (table t) existing_names =
    read_fields i (fields t) (lookup (codes "name") (fields t)) existing_names
read_entry i _ existing_names = ok (none, not_a_table i ∷ [])

-- the variables of the loop
pub record Extra : Type 0 where
  pub existing_names : List Text
  pub extra_env : List Service
  pub extra_ws : List Service

unfoldable pub extend : Extra → Option (Scope × Service) → Extra
extend x none = x
extend x (some (workspace, svc)) = record {
  existing_names = svc.name ∷ x.existing_names;
  extra_env = x.extra_env;
  extra_ws = x.extra_ws ++ (svc ∷ []);
}
extend x (some (feature_environment, svc)) = record {
  existing_names = svc.name ∷ x.existing_names;
  extra_env = x.extra_env ++ (svc ∷ []);
  extra_ws = x.extra_ws;
}

unfoldable pub read_entries : ℕ → List Value → Extra → Outcome (Extra × List Warning)
unfolding read_entry extend ◌>>=◌
read_entries i [] x = ok (x, [])
read_entries i (raw ∷ raws) x = read_entry i raw (x.existing_names) >>= λ one.
    read_entries (suc i) raws (extend x (one.0)) >>= λ more. ok (more.0, one.1 ++ more.1)

abbrev pub declared : ServiceManifest → List Text
declared m = map (λ s. s.name) m.services ++ map (λ s. s.name) m.workspace_services

abbrev pub untouched : ServiceManifest → Extra
untouched base = record { existing_names = declared base; extra_env = []; extra_ws = [] }

-- the base where nothing was added
abbrev pub with_extra :
    ServiceManifest → Extra → List Warning → List Service → Outcome (ServiceManifest × List Warning)
with_extra base x warned [] = ok (base, warned)
with_extra base x warned (_ ∷ _) = ok (
  record base {
    services = base.services ++ x.extra_env;
    workspace_services = base.workspace_services ++ x.extra_ws;
  },
  warned,
)

unfoldable pub merge_raw_services :
    ServiceManifest → List Value → Outcome (ServiceManifest × List Warning)
unfolding read_entries ◌>>=◌
merge_raw_services base raws = read_entries 0 raws (untouched base) >>= λ read.
    with_extra base (read.0) (read.1) (read.0.extra_env ++ read.0.extra_ws)

-- The bytes of the file as text: an `OSError` is caught, the error of a text that is not UTF-8 is
-- not.
pub data Content : Type 0 where
  decoded : Text → Content
  os_error : Text → Content
  undecodable : Content

pub record ExtSource : Type 0 where
  pub read_text : Text → Content
  pub loads : Text → Fields ⊎ Text

abbrev pub merge_document :
    ServiceManifest → Text → Option Value → Outcome (ServiceManifest × List Warning)
merge_document base ext_path none = merge_raw_services base []
merge_document base ext_path (some (array vs)) = merge_raw_services base (items vs)
merge_document base ext_path (some _) = ok (base, not_a_list ext_path ∷ [])

abbrev pub with_loaded :
    ServiceManifest → Text → Fields ⊎ Text → Outcome (ServiceManifest × List Warning)
with_loaded base ext_path (inr error) = ok (base, malformed_toml ext_path error ∷ [])
with_loaded base ext_path (inl doc) = merge_document base ext_path (lookup (codes "service") doc)

abbrev pub with_content :
    ExtSource → ServiceManifest → Text → Content → Outcome (ServiceManifest × List Warning)
with_content source base ext_path (os_error error) = ok (base, cannot_read ext_path error ∷ [])
with_content source base ext_path undecodable = fails uncaught
with_content source base ext_path (decoded content) =
    with_loaded base ext_path (source.loads content)

unfoldable pub read_and_merge :
    ExtSource → ServiceManifest → Text → Outcome (ServiceManifest × List Warning)
unfolding merge_raw_services lookup items
read_and_merge source base ext_path = with_content source base ext_path (source.read_text ext_path)
