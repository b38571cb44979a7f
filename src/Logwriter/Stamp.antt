-- ===== src/Logwriter/Stamp.antt =====
-- `format_log_line` of src/service_orchestrator/logwriter.py, and the order of its time stamps.
use Prim.Native.Nat.{◌/◌, ◌%◌}
use winter_service_tmux.Prelude.{ℕ, zero, suc, ◌+◌, Text, [], ◌∷◌, ◌++◌}

-- The fields of an aware UTC `datetime` that the format reads; years have four digits.
pub record DateTime : Type 0 where
  pub year : ℕ
  pub month : ℕ
  pub day : ℕ
  pub hour : ℕ
  pub minute : ℕ
  pub second : ℕ
  pub microsecond : ℕ

-- A number with `w` decimal digits, zeros in front.
unfoldable pub pad : ℕ → ℕ → Text
pad zero n = []
pad (suc w) n = pad w (n / 10) ++ (b'0' + n % 10) ∷ []

unfoldable pub stamp : DateTime → Text
unfolding pad
stamp ts =
    pad 4 ts.year
    ++ (b'-' ∷ pad 2 ts.month
        ++ (b'-' ∷ pad 2 ts.day
            ++ (b'T' ∷ pad 2 ts.hour
                ++ (b':' ∷ pad 2 ts.minute
                    ++ (b':' ∷ pad 2 ts.second ++ (b'.' ∷ pad 6 ts.microsecond ++ (b'Z' ∷ [])))))))

unfoldable pub format_log_line : DateTime → Text → Text
unfolding stamp
format_log_line ts message = stamp ts ++ (b'\t' ∷ message ++ (b'\n' ∷ []))
