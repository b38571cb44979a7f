-- ===== src/Manifest/Reader/Keyed.antt =====
-- The keyed merge of reader.py, which works on positions, does what a merge of dictionaries does.
use winter_service_tmux.Prelude.{
  ℕ, zero, suc, ◌≡◌, refl, sym, ap, inl, inr, false, Option, none, some, List, [], ◌∷◌, ◌++◌, arith,
  if◌then◌else◌, Bool-cases, ◌==◌, ==_iff, nat_eq, Text, text_eq, length, All,
}
use winter_service_tmux.Prelude.Dict.{Dict, lookup, insert}
use winter_service_tmux.Manifest.Toml.{Fields, Key, key_eq}
use winter_service_tmux.Manifest.Reader.Errors.{ok}
use winter_service_tmux.Manifest.Reader.Merge.{entry_key, modify, merge_entry}

abbrev pub Named : Type 0
Named = Dict Key Fields

unfoldable pub values : Named → List Fields
values [] = []
values ((_, e) ∷ d) = e ∷ values d

-- each entry has the key that the dictionary gives it
abbrev pub HasKeys : Text → Named → Type 0
HasKeys key = All (λ p. entry_key key (p.1) ≡ ok (some (p.0)))

-- The specification: an entry of a known key is merged into the entry it overrides, in its place;
-- an entry of a new key goes to the end.
unfoldable pub override : List Text → Named → Named → Named
unfolding insert lookup
override nested [] d = d
override nested ((k, e) ∷ overlay) d =
    override nested overlay
      (insert k (elim (lookup k d) [ none ↦ e | some old ↦ merge_entry nested old e ]) d)

abbrev pub next : Option ℕ → Option ℕ
next none = none
next (some i) = some (suc i)

next-none : (o : Option ℕ) → next o ≡ none → o ≡ none
next-none none _ = refl
next-none (some i) q = absurd (cc q)

next-some : (o : Option ℕ) (i : ℕ) → next o ≡ some i → (n : ℕ) × (o ≡ some n) × (suc n ≡ i)
next-some none i q = absurd (cc q)
next-some (some n) i q = (n, refl, cc q)

-- the position of a key
unfoldable pub place : Key → Named → Option ℕ
place k [] = none
place k ((j, _) ∷ d) = let later = place k d in if j == k then some 0 else next later

pub values-insert_new :
    (k : Key) (e : Fields) (d : Named)
    → place k d ≡ none
    → (values (insert k e d) ≡ values d ++ (e ∷ [])) × (lookup k d ≡ none)
unfolding values insert lookup place
values-insert_new k e [] h = (refl, refl)
values-insert_new k e ((j, f) ∷ d) h = elim (Bool-cases (j == k)) [
  | inl same ↦ absurd (cc (rw same at h))
  | inr other ↦
      let later : next (place k d) ≡ none = rw other at h in
      let (a, b) = values-insert_new k e d (next-none (place k d) later) in
      rw (other, insert, lookup) (ap (λ t. f ∷ t) a, b)
]

pub values-insert_old :
    (k : Key) (i : ℕ) (f : Fields → Fields) (d : Named)
    → place k d ≡ some i
    → (old : Fields) × (lookup k d ≡ some old)
      × (values (insert k (f old) d) ≡ modify i f (values d))
unfolding values insert lookup place modify
values-insert_old k i f [] h = absurd (cc h)
values-insert_old k i f ((j, e) ∷ d) h = elim (Bool-cases (j == k)) [
  | inl same ↦
      let first : some zero ≡ some i = rw same at h in
      let at_start : zero ≡ i = cc first in rw (same, sym at_start, insert, modify) (e, refl, refl)
  | inr other ↦
      let later : next (place k d) ≡ some i = rw other at h in
      let (n, at_n, eq) = next-some (place k d) i later in
      let (old, found, same_values) = values-insert_old k n f d at_n in
      rw (other, sym eq, insert, lookup, modify) (old, found, ap (λ t. e ∷ t) same_values)
]

place-cons_none :
    (k j : Key) (f : Fields) (d : Named)
    → place k ((j, f) ∷ d) ≡ none
    → (j == k ≡ false) × (place k d ≡ none)
unfolding place
place-cons_none k j f d h = elim (Bool-cases (j == k)) [
  | inl same ↦ absurd (cc (rw same at h))
  | inr other ↦ (other, next-none (place k d) (rw other at h))
]

pub place-insert_new :
    (k j : Key) (e : Fields) (d : Named)
    → place k d ≡ none
    → place j (insert k e d) ≡ (if k == j then some (length d) else place j d)
unfolding place insert
place-insert_new k j e [] h = refl
place-insert_new k j e ((i, f) ∷ d) h =
    let (other, later) = place-cons_none k i f d h in
    let rest = place-insert_new k j e d later in
    elim (Bool-cases (k == j)) [
      | inl hit ↦
          let apart : i == j ≡ false =
            ground (arith, ==_iff k j, ==_iff i j, ==_iff i k, other, hit) in
          rw (other, rest, hit, apart) refl
      | inr miss ↦ rw (other, rest, miss) refl
    ]

pub place-insert_old :
    (k j : Key) (i : ℕ) (e : Fields) (d : Named)
    → place k d ≡ some i
    → place j (insert k e d) ≡ place j d
unfolding place insert
place-insert_old k j i e [] h = absurd (cc h)
place-insert_old k j i e ((m, f) ∷ d) h = elim (Bool-cases (m == k)) [
  | inl same ↦ rw same refl
  | inr other ↦
      let (n, at_n, _) = next-some (place k d) i (rw other at h) in
      rw (other, place-insert_old k j n e d at_n) refl
]
