-- ===== src/LogService/Filters.antt =====
-- The window of time stamps and the tail, in the backlog and in the live polls.
use winter_service_tmux.Prelude.{
  ℕ, suc, ◌-◌, ◌≡◌, refl, sym, ◌∙◌, Bool, true, not, ◌&&◌, ◌||◌, none, some, List, [], ◌∷◌, ◌++◌,
  arith, ◌==◌, nat_eq, Text, text_eq, text_beq, length, take, filter, take-append-drop, length-drop,
}
use winter_service_tmux.Prelude.Int.{pos}
use winter_service_tmux.Prelude.Str.{ltb_text}
use winter_service_tmux.LogService.{
  Event, apply_tail, apply_time_filter, keep_in_window, parse_lines, events_of, live_events,
}

-- What the option's documentation asks of an event: no time stamp, or one within both bounds,
-- where an empty bound is none.
abbrev pub in_window : Text → Text → Event → Bool
in_window since until e = elim e.ts [
  | none ↦ true
  | some ts ↦ (since == [] || not (ltb_text ts since)) && (until == [] || not (ltb_text until ts))
]

keep_in_window-filter :
    (since until : Text) (events : List Event)
    → keep_in_window since until events ≡ filter (in_window since until) events
unfolding filter text_beq
keep_in_window-filter since until [] = refl
keep_in_window-filter [] [] (e ∷ es) = ground (arith, keep_in_window-filter [] [] es)
keep_in_window-filter (c ∷ s) [] (e ∷ es) = ground (arith, keep_in_window-filter (c ∷ s) [] es)
keep_in_window-filter [] (d ∷ u) (e ∷ es) = ground (arith, keep_in_window-filter [] (d ∷ u) es)
keep_in_window-filter (c ∷ s) (d ∷ u) (e ∷ es) =
    ground (arith, keep_in_window-filter (c ∷ s) (d ∷ u) es)

no_window : (events : List Event) → filter (in_window [] []) events ≡ events
unfolding filter text_beq
no_window [] = refl
no_window (e ∷ es) = ground (arith, no_window es)

-- The backlog's filter keeps, in order, exactly the events in the window.
pub apply_time_filter-filter :
    (events : List Event) (since until : Text)
    → apply_time_filter events since until ≡ filter (in_window since until) events
unfolding apply_time_filter
apply_time_filter-filter events [] [] = sym (no_window events)
apply_time_filter-filter events (c ∷ s) [] = keep_in_window-filter (c ∷ s) [] events
apply_time_filter-filter events [] (d ∷ u) = keep_in_window-filter [] (d ∷ u) events
apply_time_filter-filter events (c ∷ s) (d ∷ u) = keep_in_window-filter (c ∷ s) (d ∷ u) events

live_filter :
    (since until env svc : Text) (raws : List Text)
    → live_events since until env svc raws
      ≡ keep_in_window since until (events_of env svc (parse_lines raws))
unfolding live_events parse_lines events_of
live_filter since until env svc [] = refl
live_filter since until env svc ([] ∷ raws) = live_filter since until env svc raws
live_filter since until env svc ((c ∷ raw) ∷ raws) =
    ground (arith, live_filter since until env svc raws)

-- A live poll emits for its lines what the backlog's filter keeps of the same lines.
pub live_events-apply_time_filter :
    (since until env svc : Text) (raws : List Text)
    → live_events since until env svc raws
      ≡ apply_time_filter (events_of env svc (parse_lines raws)) since until
live_events-apply_time_filter since until env svc raws =
    live_filter since until env svc raws
    ∙ keep_in_window-filter since until _
    ∙ sym (apply_time_filter-filter _ since until)

-- A positive tail keeps the end of the events, as many as it says or all there are.
pub apply_tail_positive :
    {A : Type 0} (events : List A) (n : ℕ)
    → (cut : List A) × (events ≡ cut ++ apply_tail events (some (pos (suc n))))
      × (length (apply_tail events (some (pos (suc n))))
          ≡ Prim.Native.Nat.min (suc n) (length events))
unfolding apply_tail
apply_tail_positive events n = (
  take (length events - suc n) events,
  sym (take-append-drop (length events - suc n) events),
  omega (arith, length-drop (length events - suc n) events),
)
