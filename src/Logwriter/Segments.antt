-- ===== src/Logwriter/Segments.antt =====
-- No file of the ladder grows past the limit and the longest entry, and rotation keeps at most
-- `max_rotations` numbered segments of its own.
use winter_service_tmux.Prelude.{
  ℕ, zero, suc, ◌+◌, ◌-◌, ◌≤◌, ◌≡◌, refl, Bool, true, false, ◌&&◌, Option, none, some, List, [],
  ◌∷◌, ◌++◌, arith, ltb, nat_eq, Text, text_eq, length, length-append,
}
use winter_service_tmux.Logwriter.{
  Bytes, Ladder, Writer, unlink, rotate, open_log, append_entry, would_exceed, roll, roll_if,
  append, write_entry, write_line, entry_of, start, feed, run,
}
use winter_service_tmux.Logwriter.Rotation.{rotate_at}
use winter_service_tmux.Logwriter.Bounds.{
  IsTracked, roll_if-IsTracked, write_entry-IsTracked, start-IsTracked,
}
use winter_service_tmux.Logwriter.Stamp.{DateTime}

-- No file is larger than `cap`.
abbrev pub IsCapped : ℕ → Ladder → Type 0
IsCapped cap fs = (k : ℕ) (b : Bytes) → fs k ≡ some b → length b ≤ cap

rotate-IsCapped : (cap m : ℕ) (fs : Ladder) → IsCapped cap fs → IsCapped cap (rotate fs m)
rotate-IsCapped cap zero fs h k b e = unfold rotate unlink in ground (arith, h k b)
rotate-IsCapped cap (suc m) fs h k b e = ground (arith, rotate_at fs m k, h k b, h (k - 1) b)

open_log-IsCapped : (cap : ℕ) (fs : Ladder) → IsCapped cap fs → IsCapped cap (open_log fs)
unfolding open_log
open_log-IsCapped cap fs h k b e = ground (arith, h k b)

module _ (cap rotate_size m : ℕ) (room : rotate_size ≤ cap) where
  roll_if-IsCapped :
      (b : Bool) (w : Writer)
      → IsCapped cap w.ladder
      → IsCapped cap (roll_if rotate_size m b w).ladder
  unfolding roll_if roll
  roll_if-IsCapped true w h = open_log-IsCapped cap _ (rotate-IsCapped cap m w.ladder h)
  roll_if-IsCapped false w h = h

  append-IsCapped :
      (w : Writer) (entry : Bytes)
      → IsTracked rotate_size w
      → w.current_size + length entry ≤ cap
      → IsCapped cap w.ladder
      → IsCapped cap (append rotate_size m w entry).ladder
  unfolding append append_entry
  append-IsCapped w entry t fits h k b e =
      ground (arith, h k b, t.held, t.sized, length-append t.active entry)

  write_entry-IsCapped :
      (w : Writer) (entry : Bytes)
      → IsTracked rotate_size w
      → length entry ≤ cap
      → IsCapped cap w.ladder
      → IsCapped cap (write_entry rotate_size m w entry).ladder
  unfolding write_entry
  write_entry-IsCapped w entry t short h =
      let full = ltb 0 w.current_size && would_exceed w.current_size (length entry) rotate_size in
      let rolled = roll_if rotate_size m full w in
      let fits : rolled.current_size + length entry ≤ cap =
        unfold roll_if roll would_exceed in ground arith in
      let written = append rotate_size m rolled entry in
      roll_if-IsCapped (would_exceed written.current_size 0 rotate_size) written (
        append-IsCapped rolled entry (roll_if-IsTracked rotate_size m full t) fits
          (roll_if-IsCapped full w h))

-- Every entry of the input has at most `cap` bytes.
abbrev pub AreShort : ℕ → (Bytes → Text) → List (Bytes × DateTime) → Type 0
AreShort cap decode [] = Unit
AreShort cap decode ((raw, ts) ∷ lines) =
    (length (entry_of decode raw ts) ≤ cap) × AreShort cap decode lines

module _ (decode : Bytes → Text) (cap rotate_size m : ℕ) (room : rotate_size ≤ cap) where
  feed-IsCapped :
      (lines : List (Bytes × DateTime)) (w : Writer)
      → IsTracked rotate_size w
      → AreShort cap decode lines
      → IsCapped cap w.ladder
      → IsCapped cap (feed decode rotate_size m w lines).ladder
  unfolding feed write_line
  feed-IsCapped [] w t short h = h
  feed-IsCapped ((raw, ts) ∷ lines) w t short h =
      let echoed : Writer = record w { echoed = w.echoed ++ decode raw } in
      let entry = entry_of decode raw ts in
      let e : IsTracked rotate_size echoed = record {
        active = t.active;
        held = t.held;
        sized = t.sized;
      } in
      feed-IsCapped lines (write_entry rotate_size m echoed entry)
        (write_entry-IsTracked rotate_size m entry e) short.1
        (write_entry-IsCapped cap rotate_size m room echoed entry e short.0 h)

  -- If neither the limit, nor an entry, nor an earlier file passes `cap`, no file does after a run.
  pub run-IsCapped :
      (fs : Ladder) (lines : List (Bytes × DateTime))
      → AreShort cap decode lines
      → IsCapped cap fs
      → IsCapped cap (run decode rotate_size m fs lines).ladder
  unfolding run
  run-IsCapped fs lines short h =
      feed-IsCapped lines (start m fs) (start-IsTracked rotate_size m fs) short (begin (fs 0) refl)
    where
      begin : (f : Option Bytes) → fs 0 ≡ f → IsCapped cap (start m fs).ladder
      begin none e = unfold start in rw e (open_log-IsCapped cap fs h)
      begin (some []) e = unfold start in rw e (open_log-IsCapped cap fs h)
      begin (some (_ ∷ _)) e =
          unfold start in rw e (open_log-IsCapped cap _ (rotate-IsCapped cap m fs h))
