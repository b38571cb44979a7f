-- ===== src/Logwriter/Bounds.antt =====
-- The active file of the capture writer is never left larger than the limit.
use winter_service_tmux.Prelude.{
  ℕ, ◌≤◌, ◌≡◌, refl, Bool, true, false, some, List, [], ◌∷◌, ◌++◌, arith, nat_eq, Text, text_eq,
  length, length-append,
}
use winter_service_tmux.Logwriter.{
  Bytes, Ladder, Writer, open_log, append_entry, would_exceed, roll, roll_if, append, write_entry,
  write_line, entry_of, start, feed,
}
use winter_service_tmux.Logwriter.Loop.{rotate_active}
use winter_service_tmux.Logwriter.Stamp.{DateTime}

-- The active file is there, `current_size` is its size, and that is within the limit.
pub record IsTracked (rotate_size : ℕ) (w : Writer) : Type 0 where
  pub active : Bytes
  pub held : w.ladder 0 ≡ some active
  pub sized : length active ≡ w.current_size

module _ (rotate_size m : ℕ) where
  roll-IsTracked : (w : Writer) → IsTracked rotate_size (roll rotate_size m w)
  unfolding roll
  roll-IsTracked w = record {
    active = [];
    held = unfold open_log in ground (arith, rotate_active w.ladder m);
    sized = refl;
  }

  pub roll_if-IsTracked :
      (b : Bool) {w : Writer}
      → IsTracked rotate_size w
      → IsTracked rotate_size (roll_if rotate_size m b w)
  unfolding roll_if
  roll_if-IsTracked true {w} t = roll-IsTracked w
  roll_if-IsTracked false t = t

  append-IsTracked :
      {w : Writer} (entry : Bytes)
      → IsTracked rotate_size w
      → IsTracked rotate_size (append rotate_size m w entry)
  unfolding append
  append-IsTracked {w} entry t = record {
    active = t.active ++ entry;
    held = unfold append_entry in ground (arith, t.held);
    sized = omega (arith, length-append t.active entry, t.sized);
  }

  pub write_entry-IsTracked :
      {w : Writer} (entry : Bytes)
      → IsTracked rotate_size w
      → IsTracked rotate_size (write_entry rotate_size m w entry)
  unfolding write_entry
  write_entry-IsTracked entry t =
      roll_if-IsTracked _ (append-IsTracked entry (roll_if-IsTracked _ t))

  pub write_entry-le :
      (w : Writer) (entry : Bytes) → (write_entry rotate_size m w entry).current_size ≤ rotate_size
  unfolding write_entry roll_if roll would_exceed
  write_entry-le w entry = ground arith

  feed-IsTracked :
      (decode : Bytes → Text) (lines : List (Bytes × DateTime)) {w : Writer}
      → IsTracked rotate_size w
      → w.current_size ≤ rotate_size
      → IsTracked rotate_size (feed decode rotate_size m w lines)
        × ((feed decode rotate_size m w lines).current_size ≤ rotate_size)
  unfolding feed write_line
  feed-IsTracked decode [] t le = (t, le)
  feed-IsTracked decode ((raw, ts) ∷ lines) {w} t le =
      let echoed : Writer = record w { echoed = w.echoed ++ decode raw } in
      let entry = entry_of decode raw ts in
      let e : IsTracked rotate_size echoed = record {
        active = t.active;
        held = t.held;
        sized = t.sized;
      } in
      feed-IsTracked decode lines (write_entry-IsTracked entry e) (write_entry-le echoed entry)

pub start-IsTracked : (rotate_size m : ℕ) (fs : Ladder) → IsTracked rotate_size (start m fs)
unfolding start open_log
start-IsTracked rotate_size m fs = record {
  active = [];
  held = ground (arith, rotate_active fs m);
  sized = refl;
}
