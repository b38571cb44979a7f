-- ===== src/LogService.antt =====
-- src/service_orchestrator/modules/orchestrate/log_service.py: events, their merge and filters,
-- the backlog and the polls that follow it. What the repository and tmux return are parameters.
pub mod Merge
pub mod Filters
pub mod Follow
pub mod RoundTrip
pub mod Backlog
pub mod Kept
use winter_service_tmux.Prelude.{
  ℕ, zero, suc, ◌+◌, ◌-◌, ◌*◌, ◌/◌, ◌%◌, ◌≤◌, ◌<◌, ◌≡◌, refl, sym, ap, ◌∙◌, ◌≢◌, ◌↔◌, ◌⊎◌, inl, inr,
  Bool, true, false, not, ◌&&◌, ◌||◌, Option, none, some, List, [], ◌∷◌, ◌++◌, map, append_assoc,
  append-nil, arith, ltb, leb, nat_beq, if◌then◌else◌, Bool-cases, Option-cases, Eq, ◌==◌, ==_iff,
  ==_refl, nat_eq, Text, text_eq, text_beq, text_beq_iff, contains, contains-append, length, take,
  drop, filter, any, all, length-append, take-append-drop, length-drop, drop-append, filter-append,
  length-filter-le, All, All-append,
}
use winter_service_tmux.Prelude.Int.{ℤ, pos, negsuc}
use winter_service_tmux.Prelude.Str.{ltb_text, split_first}
use winter_service_tmux.LogRepository.{file_size, read_new_lines}
use winter_service_tmux.Logwriter.{Bytes}

-- An event of the NDJSON stream; `ts` is left out where it is `none`.
pub record Event : Type 0 where
  pub ts : Option Text
  pub env : Text
  pub svc : Text
  pub msg : Text

-- A line without a tab has no time stamp.
unfoldable pub parse_line : Text → Option Text × Text
parse_line raw = elim (split_first b'\t' raw) [
  | none ↦ (none, raw)
  | some (ts, msg) ↦ (some ts, msg)
]

unfoldable pub build_event : Option Text → Text → Text → Text → Event
build_event ts env svc msg = record { ts = ts; env = env; svc = svc; msg = msg }

-- `e.get("ts", "")`
abbrev pub sort_key : Event → Text
sort_key e = elim e.ts [ none ↦ [] | some ts ↦ ts ]

-- `list.sort(key=…)` is stable: an event goes in front of the first one with no smaller key.
unfoldable pub insert : Event → List Event → List Event
insert e [] = e ∷ []
insert e (f ∷ fs) = if ltb_text (sort_key f) (sort_key e) then f ∷ insert e fs else e ∷ f ∷ fs

unfoldable pub sort : List Event → List Event
unfolding insert
sort [] = []
sort (e ∷ es) = insert e (sort es)

-- A service's name and its lines, with their time stamps.
abbrev pub Stream : Type 0
Stream = Text × List (Option Text × Text)

unfoldable pub events_of : Text → Text → List (Option Text × Text) → List Event
unfolding build_event
events_of env svc [] = []
events_of env svc ((ts, msg) ∷ pairs) = build_event ts env svc msg ∷ events_of env svc pairs

unfoldable pub all_events : Text → List Stream → List Event
unfolding events_of
all_events env [] = []
all_events env ((svc, pairs) ∷ streams) = events_of env svc pairs ++ all_events env streams

unfoldable pub merge_sorted : Text → List Stream → List Event
unfolding sort all_events
merge_sorted env streams = sort (all_events env streams)

-- `xs[-tail:]` and `None`: of a zero, `xs[-0:]` is all of `xs`; of -(n + 1), `xs[n + 1:]`.
unfoldable pub apply_tail {ℓ} : {A : Type ℓ} → List A → Option ℤ → List A
apply_tail events none = events
apply_tail events (some (pos zero)) = events
apply_tail events (some (pos (suc n))) = drop (length events - suc n) events
apply_tail events (some (negsuc n)) = drop (suc n) events

abbrev pub is_set : Text → Bool
is_set [] = false
is_set (_ ∷ _) = true

-- the two `continue`s on a time stamp
abbrev pub outside : Text → Text → Text → Bool
outside since until ts = (is_set since && ltb_text ts since) || (is_set until && ltb_text until ts)

abbrev pub keep_in_window : Text → Text → List Event → List Event
keep_in_window since until [] = []
keep_in_window since until (e ∷ es) =
    let result = keep_in_window since until es in
    elim e.ts [
      | none ↦ e ∷ result
      | some ts ↦ if outside since until ts then result else e ∷ result
    ]

unfoldable pub apply_time_filter : List Event → Text → Text → List Event
apply_time_filter events since until =
    if not (is_set since) && not (is_set until) then events else keep_in_window since until events

-- `if not raw: continue`, then `parse_line`
unfoldable pub parse_lines : List Text → List (Option Text × Text)
unfolding parse_line
parse_lines [] = []
parse_lines ([] ∷ raws) = parse_lines raws
parse_lines ((c ∷ raw) ∷ raws) = parse_line (c ∷ raw) ∷ parse_lines raws

-- A live line is dropped by its time stamp alone.
unfoldable pub live_events : Text → Text → Text → Text → List Text → List Event
unfolding parse_line build_event
live_events since until env svc [] = []
live_events since until env svc ([] ∷ raws) = live_events since until env svc raws
live_events since until env svc ((c ∷ raw) ∷ raws) =
    let later = live_events since until env svc raws in
    let (ts, msg) = parse_line (c ∷ raw) in
    elim ts [
      | none ↦ build_event none env svc msg ∷ later
      | some t ↦ if outside since until t then later else build_event (some t) env svc msg ∷ later
    ]

module _ (decode : Bytes → Text) where
  -- One visit of a FILE-mode unit: a file that has shrunk is read from its start.
  unfoldable pub tick_file : Option Bytes → ℕ → List Text × ℕ
  unfolding file_size
  tick_file file offset =
      read_new_lines decode file (if ltb (file_size file) offset then 0 else offset)

-- One visit of a PANE-mode unit: the captured lines behind the count of the last visit.
unfoldable pub tick_pane : List Text → ℕ → List Text × ℕ
tick_pane all_lines prev_count = (drop prev_count all_lines, length all_lines)
