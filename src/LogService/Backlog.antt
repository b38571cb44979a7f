-- ===== src/LogService/Backlog.antt =====
-- `_gather_backlog` and `logs` of src/service_orchestrator/modules/orchestrate/log_service.py. What
-- the log directory and the panes hold is a function of the number of reads made before, so it may
-- change between any two reads; that number is the state.
use winter_service_tmux.Prelude.{
  ℕ, zero, suc, ◌⊎◌, inl, inr, Bool, true, false, Option, none, some, List, [], ◌∷◌, ◌++◌, map,
  if◌then◌else◌, nat_eq, Text, text_eq, take, filter,
}
use winter_service_tmux.Prelude.Int.{ℤ}
use winter_service_tmux.Prelude.Dict.{Dict, insert}
use winter_service_tmux.Prelude.Str.{splitlines}
use winter_service_tmux.Manifest.Model.{Service, file, pane, memory}
use winter_service_tmux.Orchestrator.Context.{
  SessionContext, session, target_of, requested_services, is_empty,
}
use winter_service_tmux.Logwriter.{Bytes, Ladder}
use winter_service_tmux.LogRepository.{segment_files, read_lines, read_new_lines}
use winter_service_tmux.LogService.{
  Event, Stream, parse_lines, merge_sorted, apply_time_filter, apply_tail,
}

-- what stands behind the repository and tmux; a failed capture is the text of its exception
pub record LogWorld : Type 0 where
  pub decode : Bytes → Text
  -- the segments of a service in a worktree, and a bound on their number
  pub ladder : ℕ → Text → Text → Ladder
  pub most_segments : ℕ
  pub capture_pane : ℕ → Text → Text → Text ⊎ Text

pub record LogQuery : Type 0 where
  pub services : List Text
  pub follow : Bool
  pub tail : Option ℤ
  pub since : Text
  pub until : Text
  pub timestamps : Bool

-- what goes to `err_sink`
pub data Note : Type 0 where
  capture_failed : Text → Text → Text → Note
  memory_mode : Text → Note

-- the lines of a service, its byte offset behind the active file, the notes, and the reads made
pub record Gathered : Type 0 where
  pub pairs : List (Option Text × Text)
  pub seed : Option ℕ
  pub notes : List Note
  pub reads : ℕ

-- the raw lines of the segments; the active file is read with its offset
unfoldable pub read_segments :
    LogWorld → Text → Text → List ℕ → Option ℕ → ℕ → List Text × Option ℕ × ℕ
unfolding read_lines read_new_lines
read_segments w worktree name [] seed t = ([], seed, t)
read_segments w worktree name (zero ∷ segments) seed t =
    let (raw_lines, offset) = read_new_lines (w.decode) (w.ladder t worktree name 0) 0 in
    let (more, seed', t') = read_segments w worktree name segments (some offset) (suc t) in
    (raw_lines ++ more, seed', t')
read_segments w worktree name (suc k ∷ segments) seed t =
    let raw_lines = read_lines (w.decode) (w.ladder t worktree name (suc k)) in
    let (more, seed', t') = read_segments w worktree name segments seed (suc t) in
    (raw_lines ++ more, seed', t')

abbrev is_line : Text → Bool
is_line [] = false
is_line (_ ∷ _) = true

unfoldable pub pane_pairs : Text → Option ℤ → List (Option Text × Text)
unfolding apply_tail filter splitlines
pane_pairs captured tail =
    map (λ ln. (none, ln)) (apply_tail (filter is_line (splitlines captured)) tail)

abbrev of_capture : Text → Text → Option ℤ → ℕ → Text ⊎ Text → Gathered
of_capture name target tail t (inl captured) = record {
  pairs = pane_pairs captured tail;
  seed = none;
  notes = [];
  reads = t;
}
of_capture name target tail t (inr error) = record {
  pairs = [];
  seed = none;
  notes = capture_failed name target error ∷ [];
  reads = t;
}

-- one round of the loop over the services
unfoldable pub gather_service : LogWorld → SessionContext → Option ℤ → Service → ℕ → Gathered
unfolding read_segments segment_files parse_lines pane_pairs session target_of
gather_service w ctx tail svc t = elim (svc.log) [
  | file ↦
      let segments = segment_files (w.most_segments) (w.ladder t (ctx.worktree_dir) (svc.name)) in
      let (raws, seed, t') = read_segments w (ctx.worktree_dir) (svc.name) segments none (suc t) in
      record { pairs = parse_lines raws; seed = seed; notes = []; reads = t' }
  | pane ↦
      of_capture (svc.name) (target_of svc) tail (suc t)
        (w.capture_pane t (session ctx) (target_of svc))
  | memory ↦ record { pairs = []; seed = none; notes = memory_mode (svc.name) ∷ []; reads = t }
]

-- The seeds are those of the environment of the context, by the name of the service.
pub record Backlog : Type 0 where
  pub streams : List Stream
  pub file_seeds : Dict Text ℕ
  pub notes : List Note
  pub reads : ℕ

abbrev with_seed : Text → Option ℕ → Dict Text ℕ → Dict Text ℕ
with_seed name none d = d
with_seed name (some offset) d = insert name offset d

unfoldable pub gather_backlog :
    LogWorld → SessionContext → Option ℤ → List Service → Dict Text ℕ → ℕ → Backlog
unfolding gather_service insert
gather_backlog w ctx tail [] seeds t = record {
  streams = [];
  file_seeds = seeds;
  notes = [];
  reads = t;
}
gather_backlog w ctx tail (svc ∷ in_scope) seeds t =
    let one = gather_service w ctx tail svc t in
    let rest =
      gather_backlog w ctx tail in_scope (with_seed (svc.name) (one.seed) seeds) (one.reads) in
    record {
      streams = (svc.name, one.pairs) ∷ rest.streams;
      file_seeds = rest.file_seeds;
      notes = one.notes ++ rest.notes;
      reads = rest.reads;
    }

unfoldable pub in_scope : SessionContext → LogQuery → List Service
unfolding requested_services
in_scope ctx query =
    if is_empty (query.services)
    then ctx.services
    else requested_services (query.services) (ctx.services)

-- A pipe breaks behind a number of events, or holds; either way the code is 0.
unfoldable pub emit : Option ℕ → List Event → List Event
emit none events = events
emit (some n) events = take n events

pub record Printed : Type 0 where
  pub code : ℕ
  pub events : List Event
  pub notes : List Note
  pub reads : ℕ

unfoldable pub logs : LogWorld → Option ℕ → SessionContext → LogQuery → ℕ → Printed
unfolding gather_backlog in_scope merge_sorted apply_time_filter apply_tail emit
logs w pipe ctx query t =
    let backlog = gather_backlog w ctx (query.tail) (in_scope ctx query) [] t in
    let all_events = merge_sorted (ctx.env) (backlog.streams) in
    let kept = apply_time_filter all_events (query.since) (query.until) in
    record {
      code = 0;
      events = emit pipe (apply_tail kept (query.tail));
      notes = backlog.notes;
      reads = backlog.reads;
    }
