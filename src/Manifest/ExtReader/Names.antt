-- ===== src/Manifest/ExtReader/Names.antt =====
-- What a merge of extension services leaves of the manifest.
use winter_service_tmux.Prelude.{
  ℕ, suc, ◌+◌, ◌≤◌, ◌≡◌, refl, sym, ap, subst, ◌⊎◌, inl, inr, false, Option, none, some, List, [],
  ◌∷◌, ◌++◌, map, append_assoc, append-nil, arith, Bool-cases, nat_eq, Text, text_eq, contains,
  length, length-append,
}
use mathlib.Core.List.{map-append}
use winter_service_tmux.Prelude.{
  In, nil_of_append, Distinct, contains-In, count, count-append, count-cons, count-nil,
  Distinct-count, count-Distinct,
}
use winter_service_tmux.Prelude.Dict.{lookup}
use winter_service_tmux.Prelude.Str.{codes}
use winter_service_tmux.Manifest.Model.{Service, ServiceManifest, Target}
use winter_service_tmux.Manifest.Toml.{
  Value, Fields, text, integer, float, boolean, date, array, table, items, fields,
}
use winter_service_tmux.Manifest.Reader.Errors.{Outcome, ok, fails, ◌>>=◌}
use winter_service_tmux.Manifest.ExtReader.{
  Warning, Scope, feature_environment, workspace, Entry, with_cmd, with_target, with_scope,
  raw_target, cmd_value, either_cmd, deprecated_command, cmd_of, scope_of, read_named, read_fields,
  read_entry, Extra, extend, read_entries, declared, merge_raw_services, untouched, with_extra,
  with_loaded, with_content, ExtSource, Content, decoded, os_error, undecodable, merge_document,
  read_and_merge,
}

-- a property of the result, where there is one
abbrev Ends {ℓ} : {A : Type ℓ} → (A → Type 0) → Outcome A → Type 0
Ends P (ok a) = P a
Ends P (fails _) = Unit

Ends-bind {ℓ κ} :
    {A : Type ℓ} {B : Type κ} (P : A → Type 0) (Q : B → Type 0) (o : Outcome A) (f : A → Outcome B)
    → Ends P o
    → ((a : A) → P a → Ends Q (f a))
    → Ends Q (o >>= f)
unfolding ◌>>=◌
Ends-bind P Q (ok a) f h k = k a h
Ends-bind P Q (fails _) f h k = tt

-- an entry adds a service with a new name, or a warning is logged
abbrev IsNoted : List Text → Entry → Type 0
IsNoted existing_names (none, []) = ⊥
IsNoted existing_names (none, _ ∷ _) = Unit
IsNoted existing_names (some (_, svc), _) = contains (svc.name) existing_names ≡ false

-- a command, or a warning
abbrev IsNotedCmd : Option Text × List Warning → Type 0
IsNotedCmd (none, []) = ⊥
IsNotedCmd (none, _ ∷ _) = Unit
IsNotedCmd (some _, _) = Unit

cmd_value-IsNotedCmd : (name : Text) (v : Value) → IsNotedCmd (cmd_value name v)
cmd_value-IsNotedCmd name (text s) = tt
cmd_value-IsNotedCmd name (integer n) = tt
cmd_value-IsNotedCmd name (float n) = tt
cmd_value-IsNotedCmd name (boolean b) = tt
cmd_value-IsNotedCmd name (date d) = tt
cmd_value-IsNotedCmd name (array vs) = tt
cmd_value-IsNotedCmd name (table t) = tt

warned_more :
    (c : Option Text × List Warning) (w : Warning) → IsNotedCmd c → IsNotedCmd (c.0, w ∷ c.1)
warned_more (none, []) w h = tt
warned_more (none, _ ∷ _) w h = tt
warned_more (some _, _) w h = tt

either_cmd-IsNotedCmd : (name : Text) (c d : Option Value) → IsNotedCmd (either_cmd name c d)
either_cmd-IsNotedCmd name (some v) d = cmd_value-IsNotedCmd name v
either_cmd-IsNotedCmd name none none = tt
either_cmd-IsNotedCmd name none (some v) =
    warned_more (cmd_value name v) (deprecated_command name) (cmd_value-IsNotedCmd name v)

cmd_of-IsNotedCmd : (name : Text) (raw : Fields) → IsNotedCmd (cmd_of name raw)
unfolding cmd_of
cmd_of-IsNotedCmd name raw =
    either_cmd-IsNotedCmd name (lookup (codes "cmd") raw) (lookup (codes "command") raw)

module _ (name : Text) (raw : Fields) (existing_names : List Text)
    (new : contains name existing_names ≡ false) where
  with_cmd-IsNoted :
      (scope : Scope) (target : Target) (cmd : Option Text × List Warning)
      → IsNotedCmd cmd
      → IsNoted existing_names (with_cmd name scope target cmd)
  with_cmd-IsNoted scope target (none, []) h = h
  with_cmd-IsNoted scope target (none, _ ∷ _) h = tt
  with_cmd-IsNoted scope target (some cmd, warned) h = new

  with_target-IsNoted :
      (scope : Scope) (target : Target ⊎ Warning)
      → IsNoted existing_names (with_target name raw scope target)
  with_target-IsNoted scope (inr warning) = tt
  with_target-IsNoted scope (inl target) =
      with_cmd-IsNoted scope target (cmd_of name raw) (cmd_of-IsNotedCmd name raw)

  with_scope-IsNoted :
      (scope : Outcome (Scope ⊎ Warning))
      → Ends (IsNoted existing_names) (scope >>= λ s. ok (with_scope name raw s))
  unfolding ◌>>=◌
  with_scope-IsNoted (fails _) = tt
  with_scope-IsNoted (ok (inr warning)) = tt
  with_scope-IsNoted (ok (inl scope)) = with_target-IsNoted scope (raw_target name raw)

read_named-IsNoted :
    (name : Text) (raw : Fields) (existing_names : List Text)
    → Ends (IsNoted existing_names) (read_named name raw existing_names)
unfolding read_named
read_named-IsNoted name raw existing_names = elim (Bool-cases (contains name existing_names)) [
  | inl e ↦ rw e tt
  | inr e ↦ rw e (with_scope-IsNoted name raw existing_names e (scope_of name raw))
]

read_fields-IsNoted :
    (i : ℕ) (raw : Fields) (name : Option Value) (existing_names : List Text)
    → Ends (IsNoted existing_names) (read_fields i raw name existing_names)
read_fields-IsNoted i raw none existing_names = tt
read_fields-IsNoted i raw (some (text [])) existing_names = tt
read_fields-IsNoted i raw (some (text (c ∷ s))) existing_names =
    read_named-IsNoted (c ∷ s) raw existing_names
read_fields-IsNoted i raw (some (integer n)) existing_names = tt
read_fields-IsNoted i raw (some (float n)) existing_names = tt
read_fields-IsNoted i raw (some (boolean b)) existing_names = tt
read_fields-IsNoted i raw (some (date d)) existing_names = tt
read_fields-IsNoted i raw (some (array vs)) existing_names = tt
read_fields-IsNoted i raw (some (table t)) existing_names = tt

read_entry-IsNoted :
    (i : ℕ) (v : Value) (existing_names : List Text)
    → Ends (IsNoted existing_names) (read_entry i v existing_names)
unfolding read_entry
read_entry-IsNoted i (text s) existing_names = tt
read_entry-IsNoted i (integer n) existing_names = tt
read_entry-IsNoted i (float n) existing_names = tt
read_entry-IsNoted i (boolean b) existing_names = tt
read_entry-IsNoted i (date d) existing_names = tt
read_entry-IsNoted i (array vs) existing_names = tt
read_entry-IsNoted i (table t) existing_names =
    read_fields-IsNoted i (fields t) (lookup (codes "name") (fields t)) existing_names

abbrev names : List Service → List Text
names services = map (λ s. s.name) services

names-append : (xs ys : List Service) → names (xs ++ ys) ≡ names xs ++ names ys
names-append xs ys = map-append (λ s. s.name) xs ys

abbrev size : Extra → ℕ
size x = length x.extra_env + length x.extra_ws

count-added :
    (k : Text) (svc : Service) (S e : List Service)
    → count k (names (S ++ (e ++ (svc ∷ [])))) ≡ count k (names (S ++ e)) + count k (svc.name ∷ [])
count-added k svc S e =
    rw (sym (append_assoc S e (svc ∷ [])), names-append (S ++ e) (svc ∷ []))
      (count-append k (names (S ++ e)) (svc.name ∷ []))

module _ (base : ServiceManifest) where
  -- the manifest with what the loop has found
  abbrev pub grown : Extra → ServiceManifest
  grown x = record base {
    services = base.services ++ x.extra_env;
    workspace_services = base.workspace_services ++ x.extra_ws;
  }

  -- the names of the loop are the names of the manifest, each once
  abbrev Tracks : Extra → Type 0
  Tracks x =
      ((k : Text) → count k (declared (grown x)) ≡ count k x.existing_names)
      × Distinct x.existing_names

  declared-count :
      (k : Text) (m : ServiceManifest)
      → count k (declared m) ≡ count k (names m.services) + count k (names m.workspace_services)
  declared-count k m = count-append k (names m.services) (names m.workspace_services)

  extend-Tracks :
      (x : Extra) (e : Entry) → IsNoted (x.existing_names) e → Tracks x → Tracks (extend x (e.0))
  unfolding extend
  extend-Tracks x (none, w) h t = t
  extend-Tracks x (some (scope, svc), w) h (t, d) = (counted scope, apart scope)
    where
      fresh : ¬ In (svc.name) (x.existing_names)
      fresh i = cc ((contains-In (svc.name) (x.existing_names)).1 i, h)

      apart : (scope : Scope) → Distinct ((extend x (some (scope, svc))).existing_names)
      apart workspace = (fresh, d)
      apart feature_environment = (fresh, d)

      counted :
          (scope : Scope) (k : Text)
          → count k (declared (grown (extend x (some (scope, svc)))))
            ≡ count k ((extend x (some (scope, svc))).existing_names)
      counted workspace k =
          let y = extend x (some (workspace, svc)) in
          omega (
            arith,
            t k,
            declared-count k (grown x),
            declared-count k (grown y),
            count-added k svc base.workspace_services x.extra_ws,
            count-cons k (svc.name) (x.existing_names),
            count-cons k (svc.name) [],
            count-nil {K = Text} k,
          )
      counted feature_environment k =
          let y = extend x (some (feature_environment, svc)) in
          omega (
            arith,
            t k,
            declared-count k (grown x),
            declared-count k (grown y),
            count-added k svc base.services x.extra_env,
            count-cons k (svc.name) (x.existing_names),
            count-cons k (svc.name) [],
            count-nil {K = Text} k,
          )

  -- an entry adds a service, or a warning is logged
  extend-counts :
      (x : Extra) (e : Entry)
      → IsNoted (x.existing_names) e
      → suc (size x) ≤ size (extend x (e.0)) + length (e.1)
  unfolding extend
  extend-counts x (none, []) h = absurd h
  extend-counts x (none, w ∷ ws) h = omega arith
  extend-counts x (some (workspace, svc), w) h =
      omega (arith, length-append (x.extra_ws) (svc ∷ []))
  extend-counts x (some (feature_environment, svc), w) h =
      omega (arith, length-append (x.extra_env) (svc ∷ []))

  -- after the entries `raws`
  abbrev IsRead : Extra → List Value → Extra × List Warning → Type 0
  IsRead x raws (y, warned) = Tracks y × (size x + length raws ≤ size y + length warned)

  -- a round, and what comes behind it
  round-IsRead :
      (x : Extra) (raw : Value) (raws : List Value) (one : Entry)
      → IsNoted (x.existing_names) one
      → (more : Outcome (Extra × List Warning)) → Ends (IsRead (extend x (one.0)) raws) more
      → Ends (IsRead x (raw ∷ raws)) (more >>= λ m. ok (m.0, one.1 ++ m.1))
  round-IsRead x raw raws one h more r =
      Ends-bind (IsRead (extend x (one.0)) raws) (IsRead x (raw ∷ raws)) more
        (λ m. ok (m.0, one.1 ++ m.1)) r
        (λ m (tracks, le).
          (tracks, omega (arith, le, extend-counts x one h, length-append (one.1) (m.1))))

  read_entries-IsRead :
      (i : ℕ) (raws : List Value) (x : Extra)
      → Tracks x
      → Ends (IsRead x raws) (read_entries i raws x)
  unfolding read_entries
  read_entries-IsRead i [] x t = (t, omega arith)
  read_entries-IsRead i (raw ∷ raws) x t =
      Ends-bind (IsNoted (x.existing_names)) (IsRead x (raw ∷ raws))
        (read_entry i raw (x.existing_names))
        (λ one.
          read_entries (suc i) raws (extend x (one.0)) >>= λ more. ok (more.0, one.1 ++ more.1))
        (read_entry-IsNoted i raw (x.existing_names))
        (λ one h.
          round-IsRead x raw raws one h (read_entries (suc i) raws (extend x (one.0)))
            (read_entries-IsRead (suc i) raws (extend x (one.0)) (extend-Tracks x one h t)))

  -- the manifest with services behind those of the base
  abbrev pub Extends : ServiceManifest → List Service → List Service → Type 0
  Extends m env_services ws_services = m ≡ record base {
    services = base.services ++ env_services;
    workspace_services = base.workspace_services ++ ws_services;
  }

  abbrev IsMerged : List Value → ServiceManifest × List Warning → Type 0
  IsMerged raws (m, warned) =
      Distinct (declared m)
      × ((env_services ws_services : List Service) × Extends m env_services ws_services
          × (length raws ≤ length env_services + length ws_services + length warned))

  Extends-nothing : Extends base [] []
  Extends-nothing = rw (append-nil base.services, append-nil base.workspace_services) refl

  grown-Distinct : (x : Extra) → Tracks x → Distinct (declared (grown x))
  grown-Distinct x (t, d) =
      Distinct-count (declared (grown x)) (λ k. rw (t k) (count-Distinct k (x.existing_names) d))

  with_extra-IsMerged :
      (raws : List Value) (x : Extra) (warned : List Warning) (found : List Service)
      → found ≡ x.extra_env ++ x.extra_ws
      → IsRead (untouched base) raws (x, warned)
      → Distinct (declared base)
      → Ends (IsMerged raws) (with_extra base x warned found)
  with_extra-IsMerged raws x warned (_ ∷ _) e (t, le) d =
      (grown-Distinct x t, (x.extra_env, x.extra_ws, refl, omega (arith, le)))
  with_extra-IsMerged raws x warned [] e (t, le) d =
      let (no_env, no_ws) = nil_of_append (x.extra_env) (x.extra_ws) (sym e) in
      (d, ([], [], Extends-nothing, omega (arith, le, ap length no_env, ap length no_ws)))

  untouched-Tracks : Distinct (declared base) → Tracks (untouched base)
  untouched-Tracks d = (λ k. ap (λ m. count k (declared m)) (sym Extends-nothing), d)

  merge_raw_services-IsMerged :
      (raws : List Value)
      → Distinct (declared base)
      → Ends (IsMerged raws) (merge_raw_services base raws)
  unfolding merge_raw_services
  merge_raw_services-IsMerged raws d =
      Ends-bind (IsRead (untouched base) raws) (IsMerged raws)
        (read_entries 0 raws (untouched base))
        (λ read. with_extra base (read.0) (read.1) (read.0.extra_env ++ read.0.extra_ws))
        (read_entries-IsRead 0 raws (untouched base) (untouched-Tracks d))
        (λ read h.
          with_extra-IsMerged raws (read.0) (read.1) (read.0.extra_env ++ read.0.extra_ws) refl h d)

  -- Where the names of the manifest are distinct and the merge of the entries `raws` ends with a
  -- manifest, its names are distinct, it is the base with services behind those of each scope, and
  -- there are at least as many new services and warnings as entries: none is dropped silently.
  pub merge_raw_services-Distinct :
      (raws : List Value) (m : ServiceManifest) (warned : List Warning)
      → Distinct (declared base)
      → merge_raw_services base raws ≡ ok (m, warned)
      → Distinct (declared m)
        × ((env_services ws_services : List Service) × Extends m env_services ws_services
            × (length raws ≤ length env_services + length ws_services + length warned))
  merge_raw_services-Distinct raws m warned d e =
      subst (λ o. Ends (IsMerged raws) o) e (merge_raw_services-IsMerged raws d)

  -- the names are distinct, and the base is kept
  abbrev Keeps : ServiceManifest × List Warning → Type 0
  Keeps (m, warned) =
      Distinct (declared m)
      × ((env_services ws_services : List Service) × Extends m env_services ws_services)

  IsMerged-Keeps :
      (raws : List Value) (o : Outcome (ServiceManifest × List Warning))
      → Ends (IsMerged raws) o
      → Ends Keeps o
  IsMerged-Keeps raws (ok (m, w)) (d, (e, s, x, le)) = (d, (e, s, x))
  IsMerged-Keeps raws (fails _) h = tt

  module _ (d : Distinct (declared base)) where
    merge_document-Keeps :
        (ext_path : Text) (v : Option Value) → Ends Keeps (merge_document base ext_path v)
    merge_document-Keeps ext_path none =
        IsMerged-Keeps [] (merge_raw_services base []) (merge_raw_services-IsMerged [] d)
    merge_document-Keeps ext_path (some (array vs)) =
        IsMerged-Keeps (items vs) (merge_raw_services base (items vs))
          (merge_raw_services-IsMerged (items vs) d)
    merge_document-Keeps ext_path (some (text s)) = (d, ([], [], Extends-nothing))
    merge_document-Keeps ext_path (some (integer n)) = (d, ([], [], Extends-nothing))
    merge_document-Keeps ext_path (some (float n)) = (d, ([], [], Extends-nothing))
    merge_document-Keeps ext_path (some (boolean b)) = (d, ([], [], Extends-nothing))
    merge_document-Keeps ext_path (some (date s)) = (d, ([], [], Extends-nothing))
    merge_document-Keeps ext_path (some (table t)) = (d, ([], [], Extends-nothing))

    loaded-Keeps :
        (ext_path : Text) (loaded : Fields ⊎ Text) → Ends Keeps (with_loaded base ext_path loaded)
    loaded-Keeps ext_path (inr error) = (d, ([], [], Extends-nothing))
    loaded-Keeps ext_path (inl doc) = merge_document-Keeps ext_path (lookup (codes "service") doc)

    content-Keeps :
        (source : ExtSource) (ext_path : Text) (content : Content)
        → Ends Keeps (with_content source base ext_path content)
    content-Keeps source ext_path (os_error error) = (d, ([], [], Extends-nothing))
    content-Keeps source ext_path undecodable = tt
    content-Keeps source ext_path (decoded content) = loaded-Keeps ext_path (source.loads content)

  -- Whatever the file of the extensions holds, a merge into a manifest with distinct names that
  -- ends with a manifest keeps the names distinct and every service of the base in its place.
  pub read_and_merge-Distinct :
      (source : ExtSource) (ext_path : Text) (m : ServiceManifest) (warned : List Warning)
      → Distinct (declared base)
      → read_and_merge source base ext_path ≡ ok (m, warned)
      → Distinct (declared m)
        × ((env_services ws_services : List Service) × Extends m env_services ws_services)
  unfolding read_and_merge
  read_and_merge-Distinct source ext_path m warned d e =
      subst (λ o. Ends Keeps o) e (content-Keeps d source ext_path (source.read_text ext_path))
