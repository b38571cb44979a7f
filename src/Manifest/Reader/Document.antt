-- ===== src/Manifest/Reader/Document.antt =====
-- `_build`, `_load_toml` and `read` of src/service_manifest/modules/manifest/reader.py. The file
-- system and `tomllib.loads` are parameters. The warnings of a read that fails are not kept.
use winter_service_tmux.Prelude.{
  ◌⊎◌, inl, inr, Bool, true, false, not, ◌||◌, Option, none, some, [], ◌∷◌, ◌++◌, if◌then◌else◌,
  ◌==◌, nat_eq, Text, text_eq, any,
}
use winter_service_tmux.Prelude.Int.{ℤ}
use winter_service_tmux.Prelude.Dict.{lookup}
use winter_service_tmux.Prelude.Str.{codes, starts_with}
use winter_service_tmux.Manifest.Model.{ServiceManifest, LogConfig, default_logs}
use winter_service_tmux.Manifest.Toml.{
  Value, Fields, text, integer, boolean, array, table, items, fields, bool_int, is_falsy,
}
use winter_service_tmux.Manifest.Reader.Errors.{
  Outcome, ok, fails, uncaught, untyped_field, ◌>>=◌, refuse, bad_session_prefix, bad_log_setting,
  not_found, cannot_read, malformed_toml,
}
use winter_service_tmux.Manifest.Reader.Merge.{Warnings, merge, normalize_all, tables_at}
use winter_service_tmux.Manifest.Reader.Services.{parse_services, of_scope}

abbrev prefix_value : Value → Outcome (Option Text)
prefix_value (text (c ∷ s)) = ok (some (c ∷ s))
prefix_value v = refuse bad_session_prefix

unfoldable pub session_prefix_of : Fields → Outcome (Option Text)
unfolding lookup
session_prefix_of doc = elim (lookup (codes "session_prefix") doc) [
  | none ↦ ok none
  | some v ↦ prefix_value v
]

abbrev scalar_value : Text → Value → Outcome (Option Text)
scalar_value key (text []) = ok none
scalar_value key (text (c ∷ s)) = ok (some (c ∷ s))
scalar_value key v = if is_falsy v then ok none else fails (untyped_field key)

-- `doc.get(key) or None`
unfoldable pub scalar_of : Text → Fields → Outcome (Option Text)
unfolding lookup
scalar_of key doc = elim (lookup key doc) [ none ↦ ok none | some v ↦ scalar_value key v ]

unfoldable pub holds_text : Text → Text → Bool
unfolding starts_with
holds_text part [] = part == []
holds_text part (c ∷ s) = starts_with (c ∷ s) part || holds_text part s

abbrev is_text : Text → Value → Bool
is_text s (text t) = s == t
is_text s _ = false

abbrev int_setting : Text → Value → Outcome ℤ
int_setting field (integer n) = ok n
int_setting field (boolean b) = ok (bool_int b)
int_setting field v = refuse (bad_log_setting field v)

-- one field of `raw_logs`, with its default; a container that is no table has no item by name
unfoldable pub log_setting : Text → ℤ → Value → Outcome ℤ
unfolding lookup fields items any holds_text
log_setting field default (table t) = elim (lookup field (fields t)) [
  | none ↦ ok default
  | some v ↦ int_setting field v
]
log_setting field default (array vs) =
    if any (is_text field) (items vs) then fails uncaught else ok default
log_setting field default (text s) = if holds_text field s then fails uncaught else ok default
log_setting field default _ = fails uncaught

abbrev log_settings : Value → Outcome LogConfig
log_settings v =
    log_setting (codes "rotate_size_bytes") default_logs.rotate_size_bytes v >>= λ size.
    log_setting (codes "max_rotations") default_logs.max_rotations v >>= λ rotations.
    log_setting (codes "retention_seconds") default_logs.retention_seconds v >>= λ retention.
    ok (record {
      rotate_size_bytes = size;
      max_rotations = rotations;
      retention_seconds = retention;
    })

unfoldable pub log_config_of : Fields → Outcome LogConfig
unfolding lookup log_setting ◌>>=◌
log_config_of doc = elim (lookup (codes "logs") doc) [
  | none ↦ ok default_logs
  | some v ↦ log_settings v
]

-- `_build`
unfoldable pub build_manifest : Fields → Outcome (ServiceManifest × Warnings)
unfolding session_prefix_of scalar_of normalize_all parse_services of_scope log_config_of ◌>>=◌
build_manifest doc = session_prefix_of doc >>= λ session_prefix.
    scalar_of (codes "env_file") doc >>= λ env_file.
    scalar_of (codes "layout_hook") doc >>= λ layout_hook.
    scalar_of (codes "workspace_layout_hook") doc >>= λ workspace_layout_hook.
    tables_at (codes "service") doc >>= λ entries.
    let (normal, warned) = normalize_all entries in
    parse_services 0 normal >>= λ parsed. log_config_of doc >>= λ logs.
    let m : ServiceManifest = record {
      session_prefix = session_prefix;
      env_file = env_file;
      layout_hook = layout_hook;
      services = of_scope (codes "project") parsed;
      logs = logs;
      workspace_services = of_scope (codes "workspace") parsed;
      workspace_layout_hook = workspace_layout_hook;
    } in
    ok (m, warned)

-- what stands behind the reader; an `inr` holds the text of the exception
pub record Source : Type 0 where
  pub exists : Text → Bool
  pub read_text : Text → Text ⊎ Text
  pub loads : Text → Fields ⊎ Text

-- `_load_toml`
unfoldable pub load_toml : Source → Text → Bool → Outcome Fields
load_toml source path required =
    if not (source.exists path)
    then (if required then refuse (not_found path) else ok [])
    else elim (source.read_text path) [
      | inr error ↦ refuse (cannot_read path error)
      | inl content ↦ elim (source.loads content) [
        | inr error ↦ refuse (malformed_toml path error)
        | inl doc ↦ ok doc
      ]
    ]

unfoldable pub read : Source → Text → Outcome (ServiceManifest × Warnings)
unfolding load_toml merge build_manifest ◌>>=◌
read source config_dir = load_toml source (config_dir ++ codes "/config.toml") true >>= λ committed.
    load_toml source (config_dir ++ codes "/config.local.toml") false >>= λ local.
    merge committed local >>= λ merged.
    build_manifest (merged.0) >>= λ built. ok (built.0, merged.1 ++ built.1)
