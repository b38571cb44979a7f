-- ===== src/Tests/Extensions.antt =====
-- Cases of the merge of extension services.
use winter_service_tmux.Prelude.{
  ◌+◌, ◌≤◌, ◌≡◌, refl, inl, none, List, [], ◌∷◌, ◌++◌, nat_eq, Text, text_eq, text_beq, contains,
  length,
}
use winter_service_tmux.Prelude.{Distinct}
use winter_service_tmux.Prelude.Int.{pos}
use winter_service_tmux.Prelude.Str.{codes}
use winter_service_tmux.Manifest.Model.{Service, ServiceManifest}
use winter_service_tmux.Manifest.Toml.{Value, text, array, table, item, no_more, entry, no_entry}
use winter_service_tmux.Manifest.Reader.Errors.{ok}
use winter_service_tmux.Manifest.ExtReader.{
  declared, ext_service, merge_raw_services, not_a_table, already_declared, ExtSource, decoded,
  read_and_merge,
}
use winter_service_tmux.Manifest.ExtReader.Names.{
  Extends, merge_raw_services-Distinct, read_and_merge-Distinct,
}
use winter_service_tmux.Manifest.Validator.Clean.{validate-IsOrderly}
use winter_service_tmux.Tests.Manifests.{any_regex, manifest, manifest_is_clean}

abbrev declares : Text → Value
declares name =
    table (entry (codes "name") (text name) (entry (codes "target") (text (codes "2.0")) no_entry))

-- a new service, a name that is taken, and what is no table
abbrev raws : List Value
raws = declares (codes "q") ∷ declares (codes "db") ∷ text (codes "x") ∷ []

abbrev added : Service
added = ext_service (codes "q") (record { window = pos 2; pane = pos 0 }) []

abbrev merged : ServiceManifest
merged = record manifest { services = manifest.services ++ (added ∷ []) }

apart : Distinct (declared manifest)
apart = (validate-IsOrderly any_regex manifest none manifest_is_clean).0

merged_run :
    merge_raw_services manifest raws
    ≡ ok (merged, already_declared (codes "db") ∷ not_a_table 2 ∷ [])
unfolding merge_raw_services contains text_beq
merged_run = refl

merge_raw_services-Distinct_example :
    Distinct (declared merged)
    × ((env_services ws_services : List Service) × Extends manifest merged env_services ws_services
        × (3 ≤ length env_services + length ws_services + 2))
merge_raw_services-Distinct_example =
    merge_raw_services-Distinct manifest raws merged
      (already_declared (codes "db") ∷ not_a_table 2 ∷ []) apart merged_run

abbrev source : ExtSource
source = record {
  read_text = λ path. decoded path;
  loads = λ content. inl ((codes "service", array (item (declares (codes "q")) no_more)) ∷ []);
}

read_run : read_and_merge source manifest (codes "ext.toml") ≡ ok (merged, [])
unfolding read_and_merge contains text_beq
read_run = refl

read_and_merge-Distinct_example :
    Distinct (declared merged)
    × ((env_services ws_services : List Service) × Extends manifest merged env_services ws_services)
read_and_merge-Distinct_example =
    read_and_merge-Distinct manifest source (codes "ext.toml") merged [] apart read_run
