-- ===== src/LogRepository/Segments.antt =====
-- The segments that the reader finds, read in its order, give the bytes of the ladder from the
-- oldest to the newest.
use winter_service_tmux.Prelude.{
  ℕ, zero, suc, ◌+◌, ◌≤◌, ◌<◌, ◌≡◌, refl, true, false, Option, none, some, List, [], ◌∷◌, ◌++◌,
  append_assoc, append-nil, arith, if◌then◌else◌, nat_eq, text_eq,
}
use mathlib.Core.List.{reverse, reverse-cons}
use winter_service_tmux.Logwriter.{Bytes, Ladder, exists}
use winter_service_tmux.Logwriter.Loop.{text_of, joined}
use winter_service_tmux.LogRepository.{probe, segment_files}

-- The bytes of some files, one behind the other.
abbrev pub bytes_of : Ladder → List ℕ → Bytes
bytes_of fs [] = []
bytes_of fs (k ∷ ks) = text_of (fs k) ++ bytes_of fs ks

-- Exactly the segments 1, …, n follow the active file without a gap.
pub record HasSegments (fs : Ladder) (n : ℕ) : Type 0 where
  pub present : (k : ℕ) → 1 ≤ k → k ≤ n → exists fs k ≡ true
  pub gap : exists fs (suc n) ≡ false

bytes_of-append :
    (fs : Ladder) (ks js : List ℕ) → bytes_of fs (ks ++ js) ≡ bytes_of fs ks ++ bytes_of fs js
bytes_of-append fs [] js = refl
bytes_of-append fs (k ∷ ks) js = rw (bytes_of-append fs ks js, append_assoc)

module _ (fs : Ladder) (n : ℕ) (has : HasSegments fs n) where
  probe-joined :
      (fuel j d : ℕ)
      → j + d ≡ n
      → d < fuel
      → bytes_of fs (reverse (probe fuel fs (suc j))) ++ joined fs j ≡ joined fs n
  unfolding probe
  probe-joined zero j d e h = absurd (omega arith)
  probe-joined (suc fuel) j zero e h =
      let here : j ≡ n = omega arith in rw (here, has.gap, probe) refl
  probe-joined (suc fuel) j (suc d) e h =
      rw
        (
          has.present (suc j) (omega arith) (omega arith),
          probe,
          reverse-cons,
          bytes_of-append,
          append-nil,
          append_assoc,
        )
        (probe-joined fuel (suc j) d (omega arith) (omega arith))

  -- With enough probes for its segments, a ladder without gaps is read whole, oldest bytes first.
  pub bytes_of-segment_files :
      (fuel : ℕ) → n < fuel → bytes_of fs (segment_files fuel fs) ≡ joined fs n
  unfolding segment_files exists
  bytes_of-segment_files fuel h =
      rw (bytes_of-append, active (fs 0) refl) (probe-joined fuel 0 n (omega arith) h)
    where
      active :
          (f : Option Bytes)
          → fs 0 ≡ f
          → bytes_of fs (if exists fs 0 then 0 ∷ [] else []) ≡ text_of (fs 0)
      active none e = ground (arith, e)
      active (some b) e = ground (arith, e, append-nil b)
