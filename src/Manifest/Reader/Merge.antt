-- ===== src/Manifest/Reader/Merge.antt =====
-- `_normalize_cmd_key`, `_merge_keyed` and `_merge` of
-- src/service_manifest/modules/manifest/reader.py. A warning is the `name` field of its entry. An
-- entry of `service` that is no table ends the read here; the source comes to it a little later.
use winter_service_tmux.Prelude.{
  ℕ, zero, suc, Bool, true, false, Option, none, some, List, [], ◌∷◌, ◌++◌, if◌then◌else◌, nat_eq,
  Text, text_eq, length,
}
use winter_service_tmux.Prelude.Dict.{Dict, lookup, insert, erase, update}
use winter_service_tmux.Prelude.Str.{codes}
use winter_service_tmux.Manifest.Toml.{
  Value, Values, Fields, text, array, table, no_more, item, no_entry, items, fields, table_of, Key,
  key_eq, key_of,
}
use winter_service_tmux.Manifest.Reader.Errors.{Outcome, ok, fails, uncaught, ◌>>=◌, each_ok}

abbrev pub has : Text → Fields → Bool
has key d = elim (lookup key d) [ none ↦ false | some _ ↦ true ]

abbrev pub Warnings : Type 0
Warnings = List (Option Value)

-- `_normalize_cmd_key`
unfoldable pub normalize_cmd_key : Fields → Fields × Warnings
unfolding lookup erase insert
normalize_cmd_key entry = elim (lookup (codes "command") entry) [
  | none ↦ (entry, [])
  | some command ↦ if has (codes "cmd") entry then (erase (codes "command") entry, []) else (
    insert (codes "cmd") command (erase (codes "command") entry),
    lookup (codes "name") entry ∷ [],
  )
]

unfoldable pub normalize_all : List Fields → List Fields × Warnings
unfolding normalize_cmd_key
normalize_all [] = ([], [])
normalize_all (entry ∷ entries) =
    let (one, warned) = normalize_cmd_key entry in
    let (others, more) = normalize_all entries in (one ∷ others, warned ++ more)

abbrev as_table : Value → Outcome Fields
as_table (table t) = ok (fields t)
as_table _ = fails uncaught

-- the entries of an array of tables
unfoldable pub tables : Value → Outcome (List Fields)
unfolding items fields each_ok
tables (array vs) = each_ok as_table (items vs)
tables (text []) = ok []
tables (table no_entry) = ok []
tables _ = fails uncaught

-- `doc.get(key, [])`
abbrev pub tables_at : Text → Fields → Outcome (List Fields)
tables_at key d = elim (lookup key d) [ none ↦ ok [] | some v ↦ tables v ]

-- the key of an entry: `none` where it has none, a failure where it has no hash
unfoldable pub entry_key : Text → Fields → Outcome (Option Key)
unfolding lookup key_of
entry_key key e = elim (lookup key e) [
  | none ↦ ok none
  | some v ↦ elim (key_of v) [ none ↦ fails uncaught | some k ↦ ok (some k) ]
]

-- `key_to_idx` of the committed entries, from the position `i`
unfoldable pub index_entries : Text → ℕ → List Fields → Dict Key ℕ → Outcome (Dict Key ℕ)
unfolding entry_key ◌>>=◌ insert
index_entries key i [] d = ok d
index_entries key i (e ∷ entries) d = entry_key key e >>= λ k. elim k [
  | none ↦ index_entries key (suc i) entries d
  | some k ↦ index_entries key (suc i) entries (insert k i d)
]

abbrev both_tables : Text → Option Value → Option Value → Fields → Fields
both_tables name (some (table a)) (some (table b)) merged =
    insert name (table (table_of (update (fields a) (fields b)))) merged
both_tables name _ _ merged = merged

-- the tables that are merged by their own keys
unfoldable pub merge_nested : List Text → Fields → Fields → Fields → Fields
unfolding lookup insert update fields table_of
merge_nested [] old overlay merged = merged
merge_nested (name ∷ names) old overlay merged =
    merge_nested names old overlay (both_tables name (lookup name old) (lookup name overlay) merged)

unfoldable pub merge_entry : List Text → Fields → Fields → Fields
unfolding merge_nested update
merge_entry nested old overlay = merge_nested nested old overlay (update old overlay)

-- `result[i]` replaced by `f(result[i])`
unfoldable pub modify {ℓ} : {A : Type ℓ} → ℕ → (A → A) → List A → List A
modify i f [] = []
modify zero f (x ∷ xs) = f x ∷ xs
modify (suc i) f (x ∷ xs) = x ∷ modify i f xs

-- the loop over the overlay, with `result` and `key_to_idx`
unfoldable pub merge_overlay :
    Text → List Text → List Fields → List Fields → Dict Key ℕ → Outcome (List Fields)
unfolding entry_key ◌>>=◌ lookup insert modify merge_entry
merge_overlay key nested [] result d = ok result
merge_overlay key nested (e ∷ overlay) result d = entry_key key e >>= λ k. elim k [
  | none ↦ merge_overlay key nested overlay (result ++ (e ∷ [])) d
  | some k ↦ elim (lookup k d) [
    | none ↦ merge_overlay key nested overlay (result ++ (e ∷ [])) (insert k (length result) d)
    | some i ↦
        merge_overlay key nested overlay (modify i (λ old. merge_entry nested old e) result) d
  ]
]

unfoldable pub merge_keyed : Text → List Text → List Fields → List Fields → Outcome (List Fields)
unfolding index_entries merge_overlay ◌>>=◌
merge_keyed key nested committed overlay =
    index_entries key 0 committed [] >>= λ d. merge_overlay key nested overlay committed d

unfoldable pub replace_all : List Text → Fields → Fields → Fields
unfolding lookup insert
replace_all [] local result = result
replace_all (key ∷ keys) local result = elim (lookup key local) [
  | none ↦ replace_all keys local result
  | some v ↦ replace_all keys local (insert key v result)
]

abbrev pub scalar_keys : List Text
scalar_keys =
    codes "session_prefix"
    ∷ codes "env_file"
    ∷ codes "layout_hook"
    ∷ codes "workspace_layout_hook"
    ∷ []

-- `dict(v)`, for a table and for what is empty; an array of pairs is not taken
unfoldable pub as_dict : Value → Outcome Fields
unfolding fields
as_dict (table t) = ok (fields t)
as_dict (array no_more) = ok []
as_dict (text []) = ok []
as_dict _ = fails uncaught

abbrev pub dict_at : Text → Fields → Outcome Fields
dict_at key d = elim (lookup key d) [ none ↦ ok [] | some v ↦ as_dict v ]

unfoldable pub merge_logs : Fields → Fields → Fields → Outcome Fields
unfolding as_dict ◌>>=◌ insert update table_of lookup
merge_logs committed local result = elim (lookup (codes "logs") local) [
  | none ↦ ok result
  | some v ↦ dict_at (codes "logs") committed >>= λ old.
      as_dict v >>= λ new. ok (insert (codes "logs") (table (table_of (update old new))) result)
]

unfoldable array_of : List Fields → Values
unfolding table_of
array_of [] = no_more
array_of (e ∷ entries) = item (table (table_of e)) (array_of entries)

unfoldable pub merge_services : Fields → Fields → Fields → Outcome (Fields × Warnings)
unfolding tables normalize_all merge_keyed ◌>>=◌ insert array_of lookup
merge_services committed local result = elim (lookup (codes "service") local) [
  | none ↦ ok (result, [])
  | some v ↦ tables_at (codes "service") committed >>= λ old. tables v >>= λ new.
      let (old', warned) = normalize_all old in
      let (new', warned') = normalize_all new in
      merge_keyed (codes "name") (codes "env" ∷ []) old' new' >>= λ merged.
      ok (insert (codes "service") (array (array_of merged)) result, warned ++ warned')
]

-- `_merge`
unfoldable pub merge : Fields → Fields → Outcome (Fields × Warnings)
unfolding replace_all merge_logs merge_services ◌>>=◌
merge committed [] = ok (committed, [])
merge committed (field ∷ more) =
    let local = field ∷ more in
    merge_logs committed local (replace_all scalar_keys local committed) >>= λ result.
    merge_services committed local result
