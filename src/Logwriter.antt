-- ===== src/Logwriter.antt =====
-- src/service_orchestrator/logwriter.py: the capture writer, its rotation and its main loop.
-- The files of one service are a `Ladder`: segment 0 is the active `<svc>.log`, segment n is
-- `<svc>.log.<n>`. The decoder of input lines is a parameter; the clock is part of the input.
pub mod Stamp
pub mod Rotation
pub mod Loop
pub mod Bounds
pub mod Segments
pub mod StampOrder
use Prim.Native.Nat.{◌/◌, ◌%◌}
use winter_service_tmux.Prelude.{
  ℕ, zero, suc, ◌+◌, Bool, true, false, ◌&&◌, Option, none, some, List, [], ◌∷◌, ◌++◌, ltb, leb,
  length, Text, nat_eq, ◌==◌, if◌then◌else◌,
}
use winter_service_tmux.Prelude.Str.{rstrip_newlines}
use winter_service_tmux.Logwriter.Stamp.{DateTime, format_log_line}

abbrev pub Bytes : Type 0
Bytes = List ℕ

abbrev pub Ladder : Type 0
Ladder = ℕ → Option Bytes

-- `path.exists()`
unfoldable pub exists : Ladder → ℕ → Bool
exists fs n = elim (fs n) [ none ↦ false | some _ ↦ true ]

abbrev pub put : Ladder → ℕ → Option Bytes → Ladder
put fs n file k = if k == n then file else fs k

-- `path.unlink()`, a missing file ignored
unfoldable pub unlink : Ladder → ℕ → Ladder
unlink fs n = put fs n none

-- `if src.exists(): src.rename(dst)`, which replaces `dst`
unfoldable pub rename : Ladder → ℕ → ℕ → Ladder
unfolding exists
rename fs src dst = if exists fs src then put (put fs dst (fs src)) src none else fs

-- for n in range(n, 0, -1): rename n to n + 1
unfoldable pub shift : Ladder → ℕ → Ladder
unfolding rename
shift fs zero = fs
shift fs (suc n) = shift (rename fs (suc n) (suc (suc n))) n

unfoldable pub rotate : Ladder → ℕ → Ladder
unfolding shift unlink rename
rotate fs zero = unlink fs 0
rotate fs (suc n) = rename (shift (unlink fs (suc n)) n) 0 1

unfoldable pub would_exceed : ℕ → ℕ → ℕ → Bool
would_exceed current_size line_bytes rotate_size = ltb rotate_size (current_size + line_bytes)

-- `open(path, "ab")` creates a missing file.
unfoldable pub open_log : Ladder → Ladder
open_log fs = elim (fs 0) [ none ↦ put fs 0 (some []) | some _ ↦ fs ]

-- A write through the open handle: the active file grows at its end.
unfoldable pub append_entry : Ladder → Bytes → Ladder
append_entry fs entry = elim (fs 0) [
  | none ↦ put fs 0 (some entry)
  | some old ↦ put fs 0 (some (old ++ entry))
]

-- UTF-8 of one code point; a surrogate is replaced by `?`
unfoldable pub encode_char : ℕ → Bytes
encode_char c =
    if ltb c 0x80
    then c ∷ []
    else if ltb c 0x800
    then (0xc0 + c / 64) ∷ (0x80 + c % 64) ∷ []
    else if leb 0xd800 c && leb c 0xdfff
    then b'?' ∷ []
    else if ltb c 0x10000
    then (0xe0 + c / 4096) ∷ (0x80 + (c / 64) % 64) ∷ (0x80 + c % 64) ∷ []
    else (0xf0 + c / 262144)
      ∷ (0x80 + (c / 4096) % 64)
      ∷ (0x80 + (c / 64) % 64)
      ∷ (0x80 + c % 64)
      ∷ []

unfoldable pub encode : Text → Bytes
unfolding encode_char
encode [] = []
encode (c ∷ s) = encode_char c ++ encode s

pub record Writer : Type 0 where
  pub ladder : Ladder
  pub current_size : ℕ
  pub echoed : Text

module _ (rotate_size max_rotations : ℕ) where
  -- flush, close, rotate, open again, `current_size = 0`
  unfoldable pub roll : Writer → Writer
  roll w = record w { ladder = open_log (rotate w.ladder max_rotations); current_size = 0 }

  unfoldable pub roll_if : Bool → Writer → Writer
  roll_if b w = if b then roll w else w

  unfoldable pub append : Writer → Bytes → Writer
  unfolding append_entry
  append w entry = record w {
    ladder = append_entry w.ladder entry;
    current_size = w.current_size + length entry;
  }

  -- the part of the loop's body behind the echo
  unfoldable pub write_entry : Writer → Bytes → Writer
  write_entry w entry =
      let full = ltb 0 w.current_size && would_exceed w.current_size (length entry) rotate_size in
      let written = append (roll_if full w) entry in
      roll_if (would_exceed written.current_size 0 rotate_size) written

module _ (max_rotations : ℕ) where
  -- a non-empty active file is rotated before the loop
  unfoldable pub start : Ladder → Writer
  unfolding rotate open_log
  start fs = record {
    ladder =
        open_log
          (elim (fs 0) [ none ↦ fs | some [] ↦ fs | some (_ ∷ _) ↦ rotate fs max_rotations ]);
    current_size = 0;
    echoed = [];
  }

module _ (decode : Bytes → Text) where
  unfoldable pub entry_of : Bytes → DateTime → Bytes
  unfolding encode rstrip_newlines format_log_line
  entry_of raw ts = encode (format_log_line ts (rstrip_newlines (decode raw)))

module _ (decode : Bytes → Text) (rotate_size max_rotations : ℕ) where
  unfoldable pub write_line : Writer → Bytes × DateTime → Writer
  write_line w (raw, ts) =
      write_entry rotate_size max_rotations (record w { echoed = w.echoed ++ decode raw })
        (entry_of decode raw ts)

  unfoldable pub feed : Writer → List (Bytes × DateTime) → Writer
  feed w [] = w
  feed w (line ∷ lines) = feed (write_line w line) lines

  unfoldable pub run : Ladder → List (Bytes × DateTime) → Writer
  run fs lines = feed (start max_rotations fs) lines
