-- ===== src/LogService/Follow.antt =====
-- Following a FILE-mode service: the backlog and the polls together emit each complete line once.
use winter_service_tmux.Prelude.{
  ℕ, ◌≤◌, ◌≡◌, sym, ◌∙◌, some, List, [], ◌∷◌, ◌++◌, append_assoc, append-nil, arith, nat_eq, Text,
  text_eq, length, length-append,
}
use winter_service_tmux.Logwriter.{Bytes}
use winter_service_tmux.LogRepository.{read_new_lines}
use winter_service_tmux.LogRepository.Polling.{DecodesByLine, read_new_lines-append, offset_le}
use winter_service_tmux.LogService.{tick_file}

-- The lines that the polls read while the file grows by the given parts, one before each poll.
pub polls : (Bytes → Text) → Bytes → ℕ → List Bytes → List Text
polls decode a offset [] = []
polls decode a offset (c ∷ cs) =
    let (lines, offset') = tick_file decode (some (a ++ c)) offset in
    lines ++ polls decode (a ++ c) offset' cs

abbrev pub grown : Bytes → List Bytes → Bytes
grown a [] = a
grown a (c ∷ cs) = grown (a ++ c) cs

module _ (decode : Bytes → Text) (d : DecodesByLine decode) where
  tick_file_growing :
      (a c : Bytes) (o : ℕ)
      → o ≤ length a
      → tick_file decode (some (a ++ c)) o ≡ read_new_lines decode (some (a ++ c)) o
  unfolding tick_file
  tick_file_growing a c o h = ground (arith, length-append a c)

  polls-from :
      (cs : List Bytes) (a : Bytes) (o : ℕ)
      → o ≤ length a
      → (read_new_lines decode (some a) o).0
          ++ polls decode a (read_new_lines decode (some a) o).1 cs
        ≡ (read_new_lines decode (some (grown a cs)) o).0
  unfolding polls
  polls-from [] a o h = append-nil _
  polls-from (c ∷ cs) a o h =
      let both = read_new_lines-append decode d a c o h in
      let later = polls-from cs (a ++ c) o (omega (arith, length-append a c)) in
      rw (tick_file_growing a c (read_new_lines decode (some a) o).1 (offset_le decode d a o h))
        (sym (append_assoc (read_new_lines decode (some a) o).0 _ _) ∙ (rw both at later))

  -- A backlog read to the end of the active file, followed by polls while the file only grows,
  -- gives together the lines of one read of the final file.
  pub backlog_and_polls :
      (a : Bytes) (cs : List Bytes)
      → let (backlog, seed) = read_new_lines decode (some a) 0 in
        backlog ++ polls decode a seed cs ≡ (read_new_lines decode (some (grown a cs)) 0).0
  backlog_and_polls a cs = polls-from cs a 0 (omega arith)
