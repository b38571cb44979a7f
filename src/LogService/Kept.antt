-- ===== src/LogService/Kept.antt =====
-- What `logs` prints.
use winter_service_tmux.Prelude.{
  ℕ, zero, suc, ◌-◌, ◌≤◌, ◌≡◌, refl, ap, subst, inl, inr, Bool, true, Option, none, some, List, [],
  ◌∷◌, arith, Bool-cases, nat_eq, Text, text_eq, length, take, drop, filter, length-drop, All,
  All-append,
}
use winter_service_tmux.Prelude.{In, All-map, All-filter, All-drop}
use winter_service_tmux.Prelude.Int.{ℤ, pos, negsuc}
use winter_service_tmux.Prelude.Str.{ltb_text}
use winter_service_tmux.Prelude.Dict.{Dict}
use winter_service_tmux.Manifest.Model.{Service}
use winter_service_tmux.Orchestrator.Context.{SessionContext, names_of}
use winter_service_tmux.LogService.{
  Event, Stream, sort_key, insert, sort, events_of, all_events, merge_sorted, apply_tail,
}
use winter_service_tmux.LogService.Merge.{IsSorted, Le, names, sort-IsSorted}
use winter_service_tmux.LogService.Filters.{in_window, apply_time_filter-filter}
use winter_service_tmux.LogService.Backlog.{
  LogWorld, LogQuery, gather_backlog, in_scope, emit, logs,
}

All-take {ℓ κ} : {A : Type ℓ} (P : A → Type κ) (n : ℕ) (xs : List A) → All P xs → All P (take n xs)
All-take P zero xs h = tt
All-take P (suc n) [] h = tt
All-take P (suc n) (x ∷ xs) (px, h) = (px, All-take P n xs h)

IsSorted-take : (n : ℕ) (es : List Event) → IsSorted es → IsSorted (take n es)
IsSorted-take zero es s = tt
IsSorted-take (suc n) [] s = tt
IsSorted-take (suc n) (e ∷ es) (a, s) =
    (All-take (λ f. Le (sort_key e) (sort_key f)) n es a, IsSorted-take n es s)

IsSorted-drop : (n : ℕ) (es : List Event) → IsSorted es → IsSorted (drop n es)
IsSorted-drop zero es s = s
IsSorted-drop (suc n) [] s = tt
IsSorted-drop (suc n) (e ∷ es) (_, s) = IsSorted-drop n es s

IsSorted-filter : (p : Event → Bool) (es : List Event) → IsSorted es → IsSorted (filter p es)
unfolding filter
IsSorted-filter p [] s = tt
IsSorted-filter p (e ∷ es) (a, s) = elim (Bool-cases (p e)) [
  | inl h ↦
      rw (h, filter) (All-filter (λ f. Le (sort_key e) (sort_key f)) p es a, IsSorted-filter p es s)
  | inr h ↦ rw (h, filter) (IsSorted-filter p es s)
]

filter-true : {A : Type 0} (p : A → Bool) (xs : List A) → All (λ x. p x ≡ true) (filter p xs)
unfolding filter
filter-true p [] = tt
filter-true p (x ∷ xs) = elim (Bool-cases (p x)) [
  | inl h ↦ rw (h, filter) (h, filter-true p xs)
  | inr h ↦ rw (h, filter) (filter-true p xs)
]

module _ (P : Event → Type 0) where
  insert-All : (e : Event) (es : List Event) → P e → All P es → All P (insert e es)
  unfolding insert
  insert-All e [] pe h = (pe, tt)
  insert-All e (f ∷ fs) pe (pf, h) = elim (Bool-cases (ltb_text (sort_key f) (sort_key e))) [
    | inl t ↦ rw t (pf, insert-All e fs pe h)
    | inr t ↦ rw t (pe, (pf, h))
  ]

  sort-All : (es : List Event) → All P es → All P (sort es)
  unfolding sort
  sort-All [] h = tt
  sort-All (e ∷ es) (pe, h) = insert-All e (sort es) pe (sort-All es h)

  apply_tail-All : (es : List Event) (tail : Option ℤ) → All P es → All P (apply_tail es tail)
  unfolding apply_tail
  apply_tail-All es none h = h
  apply_tail-All es (some (pos zero)) h = h
  apply_tail-All es (some (pos (suc n))) h = All-drop P (length es - suc n) es h
  apply_tail-All es (some (negsuc n)) h = All-drop P (suc n) es h

  emit-All : (pipe : Option ℕ) (es : List Event) → All P es → All P (emit pipe es)
  unfolding emit
  emit-All none es h = h
  emit-All (some n) es h = All-take P n es h

apply_tail-IsSorted :
    (es : List Event) (tail : Option ℤ) → IsSorted es → IsSorted (apply_tail es tail)
unfolding apply_tail
apply_tail-IsSorted es none h = h
apply_tail-IsSorted es (some (pos zero)) h = h
apply_tail-IsSorted es (some (pos (suc n))) h = IsSorted-drop (length es - suc n) es h
apply_tail-IsSorted es (some (negsuc n)) h = IsSorted-drop (suc n) es h

emit-IsSorted : (pipe : Option ℕ) (es : List Event) → IsSorted es → IsSorted (emit pipe es)
unfolding emit
emit-IsSorted none es h = h
emit-IsSorted (some n) es h = IsSorted-take n es h

-- at most as many as a positive tail asks for
abbrev pub IsTail : Option ℤ → List Event → Type 0
IsTail (some (pos (suc n))) es = length es ≤ suc n
IsTail _ es = Unit

length-take_le : {A : Type 0} (n : ℕ) (xs : List A) → length (take n xs) ≤ length xs
length-take_le zero xs = omega arith
length-take_le (suc n) [] = omega arith
length-take_le (suc n) (x ∷ xs) = omega (arith, length-take_le n xs)

length-emit : (pipe : Option ℕ) (es : List Event) → length (emit pipe es) ≤ length es
unfolding emit
length-emit none es = omega arith
length-emit (some n) es = length-take_le n es

emit-IsTail :
    (pipe : Option ℕ) (tail : Option ℤ) (es : List Event)
    → IsTail tail (emit pipe (apply_tail es tail))
unfolding apply_tail
emit-IsTail pipe none es = tt
emit-IsTail pipe (some (pos zero)) es = tt
emit-IsTail pipe (some (pos (suc n))) es =
    let cut = drop (length es - suc n) es in
    omega (arith, length-emit pipe cut, length-drop (length es - suc n) es)
emit-IsTail pipe (some (negsuc n)) es = tt

-- of this environment, and of one of these services
abbrev IsFrom : Text → List Text → Event → Type 0
IsFrom env svcs e = (e.env ≡ env) × In (e.svc) svcs

events_of-IsFrom :
    (env svc : Text) (svcs : List Text) (pairs : List (Option Text × Text))
    → In svc svcs
    → All (IsFrom env svcs) (events_of env svc pairs)
unfolding events_of
events_of-IsFrom env svc svcs [] i = tt
events_of-IsFrom env svc svcs ((ts, msg) ∷ pairs) i =
    ((refl, i), events_of-IsFrom env svc svcs pairs i)

all_events-IsFrom :
    (env : Text) (streams : List Stream) → All (IsFrom env (names streams)) (all_events env streams)
unfolding all_events
all_events-IsFrom env [] = tt
all_events-IsFrom env ((svc, pairs) ∷ streams) =
    All-append (IsFrom env (svc ∷ names streams)) (events_of env svc pairs) (all_events env streams)
      (events_of-IsFrom env svc (svc ∷ names streams) pairs (inl refl))
      (All-map (λ e (same, i). (same, inr i)) (all_events env streams)
        (all_events-IsFrom env streams))

names-gather_backlog :
    (w : LogWorld) (ctx : SessionContext) (tail : Option ℤ) (services : List Service)
    (seeds : Dict Text ℕ) (t : ℕ)
    → names ((gather_backlog w ctx tail services seeds t).streams) ≡ names_of services
unfolding gather_backlog names_of
names-gather_backlog w ctx tail [] seeds t = refl
names-gather_backlog w ctx tail (svc ∷ services) seeds t =
    ap (λ l. svc.name ∷ l) (names-gather_backlog w ctx tail services _ _)

All-both :
    {A : Type 0} (P Q : A → Type 0) (xs : List A) → All P xs → All Q xs → All (λ x. P x × Q x) xs
All-both P Q [] h k = tt
All-both P Q (x ∷ xs) (p, h) (q, k) = ((p, q), All-both P Q xs h k)

-- in the window, and of the environment and the services in scope
abbrev pub IsWanted : SessionContext → LogQuery → Event → Type 0
IsWanted ctx query e =
    (in_window (query.since) (query.until) e ≡ true)
    × IsFrom (ctx.env) (names_of (in_scope ctx query)) e

-- Whatever the files and panes hold while they are read, and wherever the pipe breaks, the events
-- that a backlog prints lie in the window asked for, are of the environment and of services in
-- scope, ascend in time, and are no more than a positive tail asks for.
pub logs-IsWanted :
    (w : LogWorld) (pipe : Option ℕ) (ctx : SessionContext) (query : LogQuery) (t : ℕ)
    → All (IsWanted ctx query) ((logs w pipe ctx query t).events)
      × IsSorted ((logs w pipe ctx query t).events)
      × IsTail (query.tail) ((logs w pipe ctx query t).events)
unfolding logs merge_sorted
logs-IsWanted w pipe ctx query t =
    let streams = (gather_backlog w ctx (query.tail) (in_scope ctx query) [] t).streams in
    let window = in_window (query.since) (query.until) in
    let merged = sort (all_events (ctx.env) streams) in
    let kept = filter window merged in
    let from : All (IsFrom (ctx.env) (names_of (in_scope ctx query))) merged =
      sort-All (IsFrom (ctx.env) (names_of (in_scope ctx query))) (all_events (ctx.env) streams) (
        subst (λ l. All (IsFrom (ctx.env) l) (all_events (ctx.env) streams))
          (names-gather_backlog w ctx (query.tail) (in_scope ctx query) [] t)
          (all_events-IsFrom (ctx.env) streams)) in
    rw (apply_time_filter-filter merged (query.since) (query.until)) (
      emit-All (IsWanted ctx query) pipe (apply_tail kept (query.tail)) (
          apply_tail-All (IsWanted ctx query) kept (query.tail) (
            All-both (λ e. window e ≡ true) (IsFrom (ctx.env) (names_of (in_scope ctx query))) kept
              (filter-true window merged)
              (All-filter (IsFrom (ctx.env) (names_of (in_scope ctx query))) window merged from))),
      emit-IsSorted pipe (apply_tail kept (query.tail)) (
          apply_tail-IsSorted kept (query.tail)
            (IsSorted-filter window merged (sort-IsSorted (all_events (ctx.env) streams)))),
      emit-IsTail pipe (query.tail) kept,
    )
