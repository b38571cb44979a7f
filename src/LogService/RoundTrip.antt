-- ===== src/LogService/RoundTrip.antt =====
-- What the capture writer persists is what the log reader returns.
use winter_service_tmux.Prelude.{
  ℕ, zero, suc, ◌+◌, ◌/◌, ◌%◌, ◌<◌, ◌≡◌, refl, ◌≢◌, Bool, false, ◌&&◌, Option, some, List, [], ◌∷◌,
  ◌++◌, map, append_assoc, arith, ◌==◌, nat_eq, Text, text_eq, All, All-append,
}
use winter_service_tmux.Prelude.Str.{split_first, splitlines, is_break}
use winter_service_tmux.Logwriter.Stamp.{DateTime, pad, stamp, format_log_line}
use winter_service_tmux.LogRepository.Polling.{splitlines-newline}
use winter_service_tmux.LogService.{parse_line}

-- No character of the text is `c`.
abbrev pub Lacks : ℕ → Text → Type 0
Lacks c = All (λ d. d ≢ c)

split_first-Lacks : (c : ℕ) (s t : Text) → Lacks c s → split_first c (s ++ (c ∷ t)) ≡ some (s, t)
unfolding split_first
split_first-Lacks c [] t h = ground arith
split_first-Lacks c (d ∷ s) t h = ground (arith, split_first-Lacks c s t h.1)

pad-All : (P : ℕ → Type 0) → ((n : ℕ) → n < 10 → P (b'0' + n)) → (w n : ℕ) → All P (pad w n)
unfolding pad
pad-All P h zero n = tt
pad-All P h (suc w) n =
    All-append P (pad w (n / 10)) _ (pad-All P h w (n / 10)) (h (n % 10) (omega arith), tt)

module _ (P : ℕ → Type 0) (digit : (n : ℕ) → n < 10 → P (b'0' + n)) where
  field-All : (w n c : ℕ) (s : Text) → P c → All P s → All P (pad w n ++ (c ∷ s))
  field-All w n c s sep more = All-append P (pad w n) (c ∷ s) (pad-All P digit w n) (sep, more)

  -- Whatever digits and the separators of a stamp have, all its characters have.
  stamp-All : P b'-' → P b'T' → P b':' → P b'.' → P b'Z' → (ts : DateTime) → All P (stamp ts)
  unfolding stamp
  stamp-All dash t colon dot z ts =
      let s6 : Text = pad 6 ts.microsecond ++ (b'Z' ∷ []) in
      let s5 : Text = pad 2 ts.second ++ (b'.' ∷ s6) in
      let s4 : Text = pad 2 ts.minute ++ (b':' ∷ s5) in
      let s3 : Text = pad 2 ts.hour ++ (b':' ∷ s4) in
      let s2 : Text = pad 2 ts.day ++ (b'T' ∷ s3) in
      let s1 : Text = pad 2 ts.month ++ (b'-' ∷ s2) in
      field-All 4 ts.year b'-' s1 dash (
        field-All 2 ts.month b'-' s2 dash (
          field-All 2 ts.day b'T' s3 t (
            field-All 2 ts.hour b':' s4 colon (
              field-All 2 ts.minute b':' s5 colon
                (field-All 2 ts.second b'.' s6 dot (field-All 6 ts.microsecond b'Z' [] z tt))))))

stamp-Lacks : (ts : DateTime) → Lacks b'\t' (stamp ts)
stamp-Lacks ts =
    stamp-All (λ d. d ≢ b'\t') (λ n h. omega arith) (omega arith) (omega arith) (omega arith)
      (omega arith) (omega arith) ts

parse_line-stamp :
    (ts : DateTime) (msg : Text) → parse_line (stamp ts ++ (b'\t' ∷ msg)) ≡ (some (stamp ts), msg)
unfolding parse_line
parse_line-stamp ts msg =
    rw (split_first-Lacks b'\t' (stamp ts) msg (stamp-Lacks ts), parse_line) refl

-- No character of the text ends a line for `str.splitlines`.
abbrev pub IsUnbroken : Text → Type 0
IsUnbroken = All (λ c. is_break c ≡ false)

not_return : (c : ℕ) (b : Bool) → is_break c ≡ false → (c == 13 && b) ≡ false
not_return c b h = ground arith

splitlines-unbroken : (s : Text) → IsUnbroken s → splitlines (s ++ (b'\n' ∷ [])) ≡ s ∷ []
unfolding splitlines
splitlines-unbroken [] h = refl
splitlines-unbroken (c ∷ []) h = ground (arith, h.0)
splitlines-unbroken (c ∷ d ∷ s) h =
    rw (not_return c (d == 10) h.0, h.0, splitlines-unbroken (d ∷ s) h.1) refl

stamp-IsUnbroken : (ts : DateTime) → IsUnbroken (stamp ts)
stamp-IsUnbroken ts =
    stamp-All (λ d. is_break d ≡ false) (λ n h. ground arith) refl refl refl refl refl ts

line-IsUnbroken :
    (ts : DateTime) (msg : Text) → IsUnbroken msg → IsUnbroken (stamp ts ++ (b'\t' ∷ msg))
line-IsUnbroken ts msg h =
    All-append (λ c. is_break c ≡ false) (stamp ts) (b'\t' ∷ msg) (stamp-IsUnbroken ts) (refl, h)

entry_text :
    (ts : DateTime) (msg more : Text)
    → format_log_line ts msg ++ more ≡ (stamp ts ++ (b'\t' ∷ msg)) ++ (b'\n' ∷ more)
unfolding format_log_line
entry_text ts msg more = simp append_assoc

-- The text of a log file with the given entries.
abbrev pub file_text : List (DateTime × Text) → Text
file_text [] = []
file_text ((ts, msg) ∷ entries) = format_log_line ts msg ++ file_text entries

-- The time stamps and messages of the entries.
abbrev pub written : List (DateTime × Text) → List (Option Text × Text)
written [] = []
written ((ts, msg) ∷ entries) = (some (stamp ts), msg) ∷ written entries

-- A file of entries whose messages hold no line break is read back entry by entry.
pub read_back :
    (entries : List (DateTime × Text))
    → All (λ (entry : DateTime × Text). IsUnbroken entry.1) entries
    → map parse_line (splitlines (file_text entries)) ≡ written entries
read_back [] h = unfold splitlines in refl
read_back ((ts, msg) ∷ entries) h =
    let line = stamp ts ++ (b'\t' ∷ msg) in
    rw
      (
        entry_text ts msg (file_text entries),
        splitlines-newline line (file_text entries),
        splitlines-unbroken line (line-IsUnbroken ts msg h.0),
        parse_line-stamp ts msg,
        read_back entries h.1,
      )
      refl
