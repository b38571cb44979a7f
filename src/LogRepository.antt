-- ===== src/LogRepository.antt =====
-- src/service_orchestrator/modules/orchestrate/internal/local_log_repository.py: what the adapter
-- reads of one service's files. A file is its bytes, or `none` where it is absent; the UTF-8
-- decoder with `errors="replace"` is a parameter.
pub mod Polling
pub mod Segments
use winter_service_tmux.Prelude.{
  ℕ, zero, suc, ◌+◌, ◌-◌, ◌*◌, ◌/◌, ◌%◌, ◌≤◌, ◌<◌, ◌≡◌, refl, sym, ap, ◌∙◌, ◌≢◌, ◌↔◌, ◌⊎◌, inl, inr,
  Bool, true, false, not, ◌&&◌, ◌||◌, Option, none, some, List, [], ◌∷◌, ◌++◌, map, append_assoc,
  append-nil, arith, ltb, leb, nat_beq, if◌then◌else◌, Bool-cases, Option-cases, Eq, ◌==◌, ==_iff,
  ==_refl, nat_eq, Text, text_eq, text_beq, text_beq_iff, contains, contains-append, length, take,
  drop, filter, any, all, length-append, take-append-drop, length-drop, drop-append, filter-append,
  length-filter-le, All, All-append,
}
use mathlib.Core.List.{reverse}
use winter_service_tmux.Prelude.Str.{splitlines, rstrip_newlines}
use winter_service_tmux.Logwriter.{Bytes, Ladder, exists}

-- `chunk.rfind(b)`
unfoldable pub rfind : ℕ → Bytes → Option ℕ
rfind b [] = none
rfind b (x ∷ xs) = elim (rfind b xs) [
  | some i ↦ some (suc i)
  | none ↦ if x == b then some 0 else none
]

abbrev is_full : Text → Bool
is_full [] = false
is_full (_ ∷ _) = true

unfoldable pub file_size : Option Bytes → ℕ
file_size none = 0
file_size (some file) = length file

-- Up to the last `max_bytes` bytes.
unfoldable pub tail_bytes : Option Bytes → ℕ → Bytes
tail_bytes none max_bytes = []
tail_bytes (some file) max_bytes = drop (length file - max_bytes) file

-- The names `<svc>.log.<n>` are probed from 1 up to the first gap; `fuel` bounds the probes.
unfoldable pub probe : ℕ → Ladder → ℕ → List ℕ
probe zero fs n = []
probe (suc fuel) fs n = elim (exists fs n) [ true ↦ n ∷ probe fuel fs (suc n) | false ↦ [] ]

-- The existing segments, the oldest first; 0 stands for the active file.
unfoldable pub segment_files : ℕ → Ladder → List ℕ
segment_files fuel fs = reverse (probe fuel fs 1) ++ (if exists fs 0 then 0 ∷ [] else [])

-- `[line.rstrip("\n") for line in text.splitlines() if line.rstrip("\n")]`
unfoldable pub lines_of : Text → List Text
lines_of text =
    map rstrip_newlines (filter (λ line. is_full (rstrip_newlines line)) (splitlines text))

module _ (decode : Bytes → Text) where
  unfoldable pub read_tail : Option Bytes → ℕ → Text
  read_tail file max_bytes = elim file [
    | none ↦ []
    | some bytes ↦ decode (tail_bytes (some bytes) max_bytes)
  ]

  unfoldable pub read_lines : Option Bytes → List Text
  read_lines none = []
  read_lines (some file) = map rstrip_newlines (splitlines (decode file))

  unfoldable pub read_new_lines : Option Bytes → ℕ → List Text × ℕ
  read_new_lines none offset = ([], offset)
  read_new_lines (some file) offset =
      let chunk = drop offset file in
      elim (rfind b'\n' chunk) [
        | none ↦ ([], offset)
        | some last_nl ↦
            let complete = take (suc last_nl) chunk in
            (lines_of (decode complete), offset + length complete)
      ]
