-- ===== src/Logwriter/Loop.antt =====
-- The loop of the capture writer: what stays of the entries, and how large the active file gets.
use winter_service_tmux.Prelude.{
  ℕ, zero, suc, ◌≤◌, ◌≡◌, refl, sym, ap, inl, inr, Bool, true, false, ◌&&◌, Option, none, some,
  List, [], ◌∷◌, ◌++◌, append_assoc, append-nil, arith, ltb, Option-cases, nat_eq, Text, text_eq,
  length,
}
use winter_service_tmux.Logwriter.{
  Bytes, Ladder, Writer, unlink, rotate, open_log, append_entry, would_exceed, roll, roll_if,
  append, write_entry, write_line, entry_of, start, feed, run,
}
use winter_service_tmux.Logwriter.Rotation.{rotate_at}
use winter_service_tmux.Logwriter.Stamp.{DateTime}

-- The bytes of a file; a missing file has none.
abbrev pub text_of : Option Bytes → Bytes
text_of none = []
text_of (some b) = b

-- The bytes of the segments n, …, 1 and of the active file, oldest first.
abbrev pub joined : Ladder → ℕ → Bytes
joined fs zero = text_of (fs 0)
joined fs (suc n) = text_of (fs (suc n)) ++ joined fs n

-- `part` is what is left of `whole` when its oldest bytes are dropped.
abbrev pub IsRest : Bytes → Bytes → Type 0
IsRest part whole = (dropped : Bytes) × (whole ≡ dropped ++ part)

joined_ext :
    (fs gs : Ladder) (n : ℕ)
    → ((k : ℕ) → text_of (fs k) ≡ text_of (gs k))
    → joined fs n ≡ joined gs n
joined_ext fs gs zero h = h 0
joined_ext fs gs (suc n) h = cc (h (suc n), joined_ext fs gs n h)

open_log_at : (fs : Ladder) (k : ℕ) → text_of (open_log fs k) ≡ text_of (fs k)
unfolding open_log
open_log_at fs k = ground arith

joined-append_entry :
    (fs : Ladder) (entry : Bytes) (n : ℕ) → joined (append_entry fs entry) n ≡ joined fs n ++ entry
unfolding append_entry
joined-append_entry fs entry zero = ground arith
joined-append_entry fs entry (suc n) =
    let other : append_entry fs entry (suc n) ≡ fs (suc n) = ground arith in
    rw (other, joined-append_entry fs entry n, append_assoc)

pub rotate_active : (fs : Ladder) (m : ℕ) → rotate fs m 0 ≡ none
unfolding unlink
rotate_active fs zero = unfold rotate in refl
rotate_active fs (suc m) = ground (arith, rotate_at fs m 0)

joined-rotate_below :
    (fs : Ladder) (m n : ℕ) → n ≤ m → joined (rotate fs (suc m)) (suc n) ≡ joined fs n
joined-rotate_below fs m zero le =
    let next : rotate fs (suc m) 1 ≡ fs 0 = ground (arith, rotate_at fs m 1) in
    rw (next, rotate_active fs (suc m)) (append-nil _)
joined-rotate_below fs m (suc n) le =
    let next : rotate fs (suc m) (suc (suc n)) ≡ fs (suc n) =
      ground (arith, rotate_at fs m (suc (suc n))) in
    cc (joined-rotate_below fs m n (omega arith), ap text_of next)

joined-rotate : (fs : Ladder) (m : ℕ) → IsRest (joined (rotate fs m) m) (joined fs m)
joined-rotate fs zero = (text_of (fs 0), rw rotate_active (sym (append-nil _)))
joined-rotate fs (suc m) = (
  text_of (fs (suc m)),
  ap (λ rest. text_of (fs (suc m)) ++ rest) (sym (joined-rotate_below fs m m (omega arith))),
)

-- Bytes dropped in two steps.
IsRest-trans : {a b c : Bytes} → IsRest b a → IsRest c b → IsRest c a
IsRest-trans {c = c} (d, p) (e, q) = (d ++ e, rw (p, q) (sym (append_assoc d e c)))

IsRest-append : {a b : Bytes} (e : Bytes) → IsRest b a → IsRest (b ++ e) (a ++ e)
IsRest-append {b = b} e (d, p) = (d, rw p (append_assoc d b e))

IsRest-refl : (a : Bytes) → IsRest a a
IsRest-refl a = ([], refl)

joined-open_log : (fs : Ladder) (m : ℕ) → joined (open_log fs) m ≡ joined fs m
joined-open_log fs m = joined_ext (open_log fs) fs m (open_log_at fs)

module _ (m : ℕ) where
  start-IsRest : (fs : Ladder) → IsRest (joined (start m fs).ladder m) (joined fs m)
  unfolding start
  start-IsRest fs = elim (Option-cases (fs 0)) [
    | inl e ↦ rw (e, joined-open_log) (IsRest-refl _)
    | inr ([], e) ↦ rw (e, joined-open_log) (IsRest-refl _)
    | inr (_ ∷ _, e) ↦ rw (e, joined-open_log) (joined-rotate fs m)
  ]

module _ (rotate_size m : ℕ) where
  roll_if-IsRest :
      (b : Bool) (w : Writer)
      → IsRest (joined (roll_if rotate_size m b w).ladder m) (joined w.ladder m)
  unfolding roll_if roll
  roll_if-IsRest false w = IsRest-refl _
  roll_if-IsRest true w = rw joined-open_log (joined-rotate w.ladder m)

  joined-append :
      (w : Writer) (entry : Bytes)
      → joined (append rotate_size m w entry).ladder m ≡ joined w.ladder m ++ entry
  unfolding append
  joined-append w entry = joined-append_entry w.ladder entry m

  write_entry-IsRest :
      (w : Writer) (entry : Bytes)
      → IsRest (joined (write_entry rotate_size m w entry).ladder m) (joined w.ladder m ++ entry)
  unfolding write_entry
  write_entry-IsRest w entry =
      let full = ltb 0 w.current_size && would_exceed w.current_size (length entry) rotate_size in
      let rolled = roll_if rotate_size m full w in
      let written = append rotate_size m rolled entry in
      let second = would_exceed written.current_size 0 rotate_size in
      IsRest-trans (IsRest-append entry (roll_if-IsRest full w))
        (rw (← joined-append rolled entry) (roll_if-IsRest second written))

-- The entries of some input lines, one behind the other.
abbrev pub entries : (Bytes → Text) → List (Bytes × DateTime) → Bytes
entries decode [] = []
entries decode ((raw, ts) ∷ lines) = entry_of decode raw ts ++ entries decode lines

module _ (decode : Bytes → Text) (rotate_size m : ℕ) where
  write_line-IsRest :
      (w : Writer) (raw : Bytes) (ts : DateTime)
      → IsRest
          (joined (write_line decode rotate_size m w (raw, ts)).ladder m)
          (joined w.ladder m ++ entry_of decode raw ts)
  unfolding write_line
  write_line-IsRest w raw ts =
      write_entry-IsRest rotate_size m (record w { echoed = w.echoed ++ decode raw })
        (entry_of decode raw ts)

  feed-IsRest :
      (w : Writer) (lines : List (Bytes × DateTime))
      → IsRest
          (joined (feed decode rotate_size m w lines).ladder m)
          (joined w.ladder m ++ entries decode lines)
  unfolding feed
  feed-IsRest w [] = rw append-nil (IsRest-refl _)
  feed-IsRest w ((raw, ts) ∷ lines) =
      let w' = write_line decode rotate_size m w (raw, ts) in
      rw (← append_assoc (joined w.ladder m) (entry_of decode raw ts) (entries decode lines)) (
        IsRest-trans (IsRest-append (entries decode lines) (write_line-IsRest w raw ts))
          (feed-IsRest w' lines))

  -- Whatever the earlier files and the input, the segments and the active file, read oldest
  -- first, are what is left of the earlier files followed by one entry for each input line, in
  -- order, when only the oldest bytes are dropped.
  pub run_keeps_newest :
      (fs : Ladder) (lines : List (Bytes × DateTime))
      → IsRest
          (joined (run decode rotate_size m fs lines).ladder m)
          (joined fs m ++ entries decode lines)
  unfolding run
  run_keeps_newest fs lines =
      IsRest-trans (IsRest-append (entries decode lines) (start-IsRest m fs))
        (feed-IsRest (start m fs) lines)
