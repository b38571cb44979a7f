-- ===== src/LogService/Merge.antt =====
-- The merge of the services' lines: it is sorted, and each service whose own lines ascend keeps
-- their order.
use winter_service_tmux.Prelude.{
  ◌≡◌, refl, inl, inr, Bool, true, false, Option, List, [], ◌∷◌, ◌++◌, append_assoc, append-nil,
  arith, if◌then◌else◌, Bool-cases, ◌==◌, nat_eq, Text, text_eq, text_beq_iff, filter,
  filter-append, All,
}
use winter_service_tmux.Prelude.Str.{ltb_text}
use winter_service_tmux.LogService.{
  Event, Stream, sort_key, insert, sort, events_of, all_events, merge_sorted,
}

-- `s ≤ t`
abbrev pub Le : Text → Text → Type 0
Le s t = ltb_text t s ≡ false

Le-trans : (r s t : Text) → Le r s → Le s t → Le r t
unfolding ltb_text
Le-trans [] s t h k = unfold ltb_text in refl
Le-trans (a ∷ r) [] t h k = cc
Le-trans (a ∷ r) (b ∷ s) [] h k = cc
Le-trans (a ∷ r) (b ∷ s) (c ∷ t) h k = ground (arith, Le-trans r s t)

Le_of_lt : (s t : Text) → ltb_text s t ≡ true → Le s t
unfolding ltb_text
Le_of_lt [] t h = unfold ltb_text in refl
Le_of_lt (a ∷ s) [] h = cc
Le_of_lt (a ∷ s) (b ∷ t) h = ground (arith, Le_of_lt s t)

-- Each event's key is at most the keys behind it.
abbrev pub IsSorted : List Event → Type 0
IsSorted [] = Unit
IsSorted (e ∷ es) = All (λ f. Le (sort_key e) (sort_key f)) es × IsSorted es

All-Le :
    (k j : Text) (es : List Event)
    → Le k j
    → All (λ f. Le j (sort_key f)) es
    → All (λ f. Le k (sort_key f)) es
All-Le k j [] h a = tt
All-Le k j (e ∷ es) h a = (Le-trans k j (sort_key e) h a.0, All-Le k j es h a.1)

insert-All :
    (k : Text) (e : Event) (es : List Event)
    → Le k (sort_key e)
    → All (λ f. Le k (sort_key f)) es
    → All (λ f. Le k (sort_key f)) (insert e es)
unfolding insert
insert-All k e [] h a = (h, tt)
insert-All k e (f ∷ fs) h a = elim (Bool-cases (ltb_text (sort_key f) (sort_key e))) [
  | inl t ↦ rw t (a.0, insert-All k e fs h a.1)
  | inr t ↦ rw t (h, a)
]

insert-IsSorted : (e : Event) (es : List Event) → IsSorted es → IsSorted (insert e es)
unfolding insert
insert-IsSorted e [] s = (tt, tt)
insert-IsSorted e (f ∷ fs) s = elim (Bool-cases (ltb_text (sort_key f) (sort_key e))) [
  | inl t ↦ rw t (
    insert-All (sort_key f) e fs (Le_of_lt (sort_key f) (sort_key e) t) s.0,
    insert-IsSorted e fs s.1,
  )
  | inr t ↦ rw t ((t, All-Le (sort_key e) (sort_key f) fs t s.0), s)
]

pub sort-IsSorted : (es : List Event) → IsSorted (sort es)
unfolding sort
sort-IsSorted [] = tt
sort-IsSorted (e ∷ es) = insert-IsSorted e (sort es) (sort-IsSorted es)

insert_front :
    (e : Event) (es : List Event)
    → All (λ f. Le (sort_key e) (sort_key f)) es
    → insert e es ≡ e ∷ es
unfolding insert
insert_front e [] a = refl
insert_front e (f ∷ fs) a = rw a.0 refl

sort_sorted : (es : List Event) → IsSorted es → sort es ≡ es
unfolding sort
sort_sorted [] s = refl
sort_sorted (e ∷ es) s = rw (sort_sorted es s.1) (insert_front e es s.0)

module _ (p : Event → Bool) where
  filter-All :
      (k : Text) (es : List Event)
      → All (λ f. Le k (sort_key f)) es
      → All (λ f. Le k (sort_key f)) (filter p es)
  unfolding filter
  filter-All k [] a = tt
  filter-All k (e ∷ es) a = elim (Bool-cases (p e)) [
    | inl h ↦ rw h (a.0, filter-All k es a.1)
    | inr h ↦ rw h (filter-All k es a.1)
  ]

  filter-insert :
      (e : Event) (es : List Event)
      → IsSorted es
      → filter p (insert e es) ≡ (if p e then insert e (filter p es) else filter p es)
  unfolding filter insert
  filter-insert e [] s = ground arith
  filter-insert e (f ∷ fs) s = elim (Bool-cases (ltb_text (sort_key f) (sort_key e))) [
    | inl t ↦ rw t (ground (arith, t, filter-insert e fs s.1))
    | inr t ↦
        rw
          (
            t,
            insert_front e (filter p (f ∷ fs))
                (filter-All (sort_key e) (f ∷ fs) (t, All-Le (sort_key e) (sort_key f) fs t s.0)),
          )
          refl
  ]

  -- Choosing some of the events first and sorting them then makes no difference.
  filter-sort : (es : List Event) → filter p (sort es) ≡ sort (filter p es)
  unfolding sort filter
  filter-sort [] = refl
  filter-sort (e ∷ es) =
      rw (filter-insert e (sort es) (sort-IsSorted es), filter-sort es) (ground arith)

-- Is it an event of this service?
abbrev pub is_of : Text → Event → Bool
is_of svc e = e.svc == svc

abbrev pub names : List Stream → List Text
names [] = []
names ((svc, _) ∷ streams) = svc ∷ names streams

events_of_same :
    (env svc : Text) (pairs : List (Option Text × Text))
    → filter (is_of svc) (events_of env svc pairs) ≡ events_of env svc pairs
unfolding filter events_of
events_of_same env svc [] = refl
events_of_same env svc ((ts, msg) ∷ pairs) =
    ground (arith, events_of_same env svc pairs, text_beq_iff svc svc)

events_of_other :
    (env svc other : Text) (pairs : List (Option Text × Text))
    → (other == svc) ≡ false
    → filter (is_of svc) (events_of env other pairs) ≡ []
unfolding filter events_of
events_of_other env svc other [] h = refl
events_of_other env svc other ((ts, msg) ∷ pairs) h =
    ground (arith, events_of_other env svc other pairs h)

absent :
    (env svc : Text) (streams : List Stream)
    → All (λ other. (other == svc) ≡ false) (names streams)
    → filter (is_of svc) (all_events env streams) ≡ []
unfolding all_events
absent env svc [] h = unfold filter in refl
absent env svc ((other, pairs) ∷ streams) h =
    rw
      (
        filter-append (is_of svc) (events_of env other pairs) (all_events env streams),
        events_of_other env svc other pairs h.0,
        absent env svc streams h.1,
      )
      refl

all_events-append :
    (env : Text) (xs ys : List Stream)
    → all_events env (xs ++ ys) ≡ all_events env xs ++ all_events env ys
unfolding all_events
all_events-append env [] ys = refl
all_events-append env ((svc, pairs) ∷ xs) ys = rw (all_events-append env xs ys, append_assoc) refl

-- A service whose name no other stream has, and whose own lines ascend in time, has exactly its
-- lines in the merge, in their own order.
pub merge_sorted_keeps_service :
    (env svc : Text) (pairs : List (Option Text × Text)) (before behind : List Stream)
    → All (λ other. (other == svc) ≡ false) (names before)
    → All (λ other. (other == svc) ≡ false) (names behind)
    → IsSorted (events_of env svc pairs)
    → filter (is_of svc) (merge_sorted env (before ++ (svc, pairs) ∷ behind))
      ≡ events_of env svc pairs
unfolding merge_sorted
merge_sorted_keeps_service env svc pairs before behind h k s =
    rw
      (
        filter-sort (is_of svc) (all_events env (before ++ (svc, pairs) ∷ behind)),
        all_events-append env before ((svc, pairs) ∷ behind),
        filter-append (is_of svc) (all_events env before) (all_events env ((svc, pairs) ∷ behind)),
        absent env svc before h,
        filter-append (is_of svc) (events_of env svc pairs) (all_events env behind),
        events_of_same env svc pairs,
        absent env svc behind k,
        append-nil,
      )
      (sort_sorted (events_of env svc pairs) s)
