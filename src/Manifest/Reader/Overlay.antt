-- ===== src/Manifest/Reader/Overlay.antt =====
-- The merge of two lists of entries refines the merge of two dictionaries of entries.
use winter_service_tmux.Prelude.{
  ℕ, suc, ◌+◌, ◌≡◌, refl, sym, ap, ◌∙◌, subst, inl, inr, Option, none, some, List, [], ◌∷◌, arith,
  Bool-cases, Option-cases, ◌==◌, ==_iff, nat_eq, Text, text_eq, length,
}
use winter_service_tmux.Prelude.{In, Distinct}
use winter_service_tmux.Prelude.Dict.{Dict, keys, lookup, insert, lookup-insert}
use winter_service_tmux.Manifest.Toml.{Fields, Key, key_eq}
use winter_service_tmux.Manifest.Reader.Errors.{ok, ◌>>=◌}
use winter_service_tmux.Manifest.Reader.Merge.{
  index_entries, merge_entry, merge_overlay, merge_keyed,
}
use winter_service_tmux.Manifest.Reader.Keyed.{
  Named, values, HasKeys, override, place, next, values-insert_new, values-insert_old,
  place-insert_new, place-insert_old,
}

length-values : (d : Named) → length (values d) ≡ length d
unfolding values
length-values [] = refl
length-values (p ∷ d) = ap suc (length-values d)

place-out : (k : Key) (d : Named) → ¬ In k (keys d) → place k d ≡ none
unfolding place keys
place-out k [] h = refl
place-out k ((j, e) ∷ d) h = elim (Bool-cases (j == k)) [
  | inl same ↦ absurd (h (inl ((==_iff j k).0 same)))
  | inr other ↦ rw (other, place-out k d (λ i. h (inr i))) refl
]

-- a position behind the first `i`, or what the index had
abbrev shifted : ℕ → Option ℕ → Option ℕ → Option ℕ
shifted i none old = old
shifted i (some n) old = some (i + n)

shifted-next : (i : ℕ) (o old : Option ℕ) → shifted i (next o) old ≡ shifted (suc i) o old
shifted-next i none old = refl
shifted-next i (some n) old = ap some (omega arith)

shifted-zero : (o : Option ℕ) → shifted 0 o none ≡ o
shifted-zero none = refl
shifted-zero (some n) = ap some (omega arith)

override-nil : (nested : List Text) (d : Named) → override nested [] d ≡ d
unfolding override
override-nil nested d = refl

override-new :
    (nested : List Text) (k : Key) (e : Fields) (o d : Named)
    → lookup k d ≡ none
    → override nested ((k, e) ∷ o) d ≡ override nested o (insert k e d)
unfolding override
override-new nested k e o d h = rw h refl

override-old :
    (nested : List Text) (k : Key) (e old : Fields) (o d : Named)
    → lookup k d ≡ some old
    → override nested ((k, e) ∷ o) d ≡ override nested o (insert k (merge_entry nested old e) d)
unfolding override
override-old nested k e old o d h = rw h refl

module _ (key : Text) where
  index_entries-place :
      (c : Named) (i : ℕ) (idx : Dict Key ℕ)
      → HasKeys key c
      → Distinct (keys c)
      → (idx' : Dict Key ℕ) × (index_entries key i (values c) idx ≡ ok idx')
        × ((k : Key) → lookup k idx' ≡ shifted i (place k c) (lookup k idx))
  unfolding index_entries values place keys ◌>>=◌
  index_entries-place [] i idx h d = (idx, refl, λ k. refl)
  index_entries-place ((k, e) ∷ c) i idx (hk, h) (out, d) =
      let (idx', runs, finds) = index_entries-place c (suc i) (insert k i idx) h d in
      (idx', rw (hk, index_entries) runs, λ j. finds j ∙ step j)
    where
      step :
          (j : Key)
          → shifted (suc i) (place j c) (lookup j (insert k i idx))
            ≡ shifted i (place j ((k, e) ∷ c)) (lookup j idx)
      step j = elim (Bool-cases (k == j)) [
        | inl same ↦
            rw
              (
                lookup-insert k j i idx,
                same,
                place-out j c (subst (λ x. ¬ In x (keys c)) ((==_iff k j).0 same) out),
              )
              (ap some (omega arith))
        | inr other ↦
            rw (lookup-insert k j i idx, other) (sym (shifted-next i (place j c) (lookup j idx)))
      ]

  merge_overlay-override :
      (nested : List Text) (o d : Named) (idx : Dict Key ℕ)
      → HasKeys key o
      → ((k : Key) → lookup k idx ≡ place k d)
      → merge_overlay key nested (values o) (values d) idx ≡ ok (values (override nested o d))
  unfolding merge_overlay values ◌>>=◌
  merge_overlay-override nested [] d idx h same =
      ap (λ x. ok (values x)) (sym (override-nil nested d))
  merge_overlay-override nested ((k, e) ∷ o) d idx (hk, h) same = elim (Option-cases (place k d)) [
    | inl fresh ↦
        let (grown, absent) = values-insert_new k e d fresh in
        rw (override-new nested k e o d absent, hk, merge_overlay)
          (rw (same k, fresh, sym grown, ◌>>=◌)
            (merge_overlay-override nested o (insert k e d) (insert k (length (values d)) idx) h
              (λ j.
                lookup-insert k j (length (values d)) idx
                ∙ rw (length-values d, same j) (sym (place-insert_new k j e d fresh)))))
    | inr (i, found) ↦
        let (old, here, changed) =
          values-insert_old k i (λ old. merge_entry nested old e) d found in
        rw (override-old nested k e old o d here, hk, merge_overlay)
          (rw (same k, found, sym changed, ◌>>=◌)
            (merge_overlay-override nested o (insert k (merge_entry nested old e) d) idx h
              (λ j. same j ∙ sym (place-insert_old k j i (merge_entry nested old e) d found))))
  ]

-- Where each entry of the committed list and of the overlay has a key, and the committed keys are
-- distinct, the merge by positions succeeds and gives the entries of the merge by keys: an overlay
-- entry of a known key is merged into the entry it overrides, in its place, and the others follow
-- in the order in which their keys first come.
pub merge_keyed-override :
    (key : Text) (nested : List Text) (c o : Named)
    → HasKeys key c
    → HasKeys key o
    → Distinct (keys c)
    → merge_keyed key nested (values c) (values o) ≡ ok (values (override nested o c))
unfolding merge_keyed ◌>>=◌ lookup
merge_keyed-override key nested c o hc ho d =
    let (idx, runs, finds) = index_entries-place key c 0 [] hc d in
    rw (runs, merge_keyed)
      (merge_overlay-override key nested o c idx ho (λ k. finds k ∙ shifted-zero (place k c)))
