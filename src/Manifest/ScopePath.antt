-- ===== src/Manifest/ScopePath.antt =====
-- The paths of `_check_cwd_config` in src/service_manifest/modules/manifest/validator.py:
-- `posixpath.isabs`, and `posixpath.normpath` of a relative path.
pub mod Inside
use winter_service_tmux.Prelude.{
  ℕ, zero, suc, ◌+◌, ◌-◌, ◌*◌, ◌/◌, ◌%◌, ◌≤◌, ◌<◌, ◌≡◌, refl, sym, ap, ◌∙◌, ◌≢◌, ◌↔◌, ◌⊎◌, inl, inr,
  Bool, true, false, not, ◌&&◌, ◌||◌, Option, none, some, List, [], ◌∷◌, ◌++◌, map, append_assoc,
  append-nil, arith, ltb, leb, nat_beq, if◌then◌else◌, Bool-cases, Option-cases, Eq, ◌==◌, ==_iff,
  ==_refl, nat_eq, Text, text_eq, text_beq, text_beq_iff, contains, contains-append, length, take,
  drop, filter, any, all, length-append, take-append-drop, length-drop, drop-append, filter-append,
  length-filter-le, All, All-append,
}
use winter_service_tmux.Prelude.Str.{codes, split, join, starts_with}

-- `posixpath.isabs`
unfoldable pub isabs : Text → Bool
unfolding starts_with
isabs path = starts_with path (b'/' ∷ [])

abbrev pub is_up : Text → Bool
is_up comp = comp == b'.' ∷ b'.' ∷ []

abbrev pub is_here : Text → Bool
is_here comp = comp == [] || comp == b'.' ∷ []

-- one component of a relative path, on the components so far, the last first
unfoldable pub push : Text → List Text → List Text
push comp [] = if is_here comp then [] else comp ∷ []
push comp (last ∷ new_comps) =
    if is_here comp
    then last ∷ new_comps
    else if not (is_up comp)
    then comp ∷ last ∷ new_comps
    else if is_up last
    then comp ∷ last ∷ new_comps
    else new_comps

unfoldable pub push_all : List Text → List Text → List Text
unfolding push
push_all [] new_comps = new_comps
push_all (comp ∷ comps) new_comps = push_all comps (push comp new_comps)

unfoldable pub reverse_onto : List Text → List Text → List Text
reverse_onto [] behind = behind
reverse_onto (x ∷ xs) behind = reverse_onto xs (x ∷ behind)

abbrev pub or_dot : Text → Text
or_dot [] = b'.' ∷ []
or_dot (c ∷ s) = c ∷ s

-- `posixpath.normpath` of a relative path
unfoldable pub normpath : Text → Text
unfolding push_all reverse_onto join split
normpath path = or_dot (join (b'/' ∷ []) (reverse_onto (push_all (split b'/' path) []) []))

-- the test that a path leaves its scope root
unfoldable pub escapes : Text → Bool
unfolding normpath starts_with
escapes cwd =
    let normalized = normpath cwd in
    is_up normalized || starts_with normalized (b'.' ∷ b'.' ∷ b'/' ∷ [])

paths :
    (normpath (codes "a/./b/../c//") ≡ codes "a/c")
    × (normpath (codes "a/..") ≡ codes ".")
    × (escapes (codes "a/../../b") ≡ true)
    × (escapes (codes "..a/b") ≡ false)
unfolding normpath escapes text_beq
paths = (refl, refl, refl, refl)
