-- ===== src/Logwriter/StampOrder.antt =====
-- The text order of the time stamps is the order of the times, which the readers rely on.
use winter_service_tmux.Prelude.{
  ℕ, zero, suc, ◌+◌, ◌*◌, ◌/◌, ◌%◌, ◌<◌, ◌≡◌, refl, sym, ◌∙◌, Bool, ◌&&◌, ◌||◌, [], ◌∷◌, ◌++◌,
  arith, ltb, ◌==◌, nat_eq, Text, text_eq, text_beq, text_beq_iff, length, length-append,
}
use winter_service_tmux.Prelude.Str.{ltb_text}
use winter_service_tmux.Logwriter.Stamp.{DateTime, pad, stamp}

ltb_text-append :
    (x y s t : Text)
    → length x ≡ length y
    → ltb_text (x ++ s) (y ++ t) ≡ (ltb_text x y || (x == y && ltb_text s t))
unfolding ltb_text text_beq
ltb_text-append [] [] s t e = refl
ltb_text-append [] (d ∷ y) s t e = absurd (omega arith)
ltb_text-append (c ∷ x) [] s t e = absurd (omega arith)
ltb_text-append (c ∷ x) (d ∷ y) s t e =
    ground
      (arith, ltb_text-append x y s t (omega arith), text_beq_iff x y, text_beq_iff (c ∷ x) (d ∷ y))

-- 10 to the power of `w`
abbrev pub bound : ℕ → ℕ
bound zero = 1
bound (suc w) = 10 * bound w

pub length-pad : (w n : ℕ) → length (pad w n) ≡ w
unfolding pad
length-pad zero n = refl
length-pad (suc w) n =
    omega (arith, length-append (pad w (n / 10)) ((b'0' + n % 10) ∷ []), length-pad w (n / 10))

text_beq-append :
    (x y s t : Text) → length x ≡ length y → ((x ++ s) == (y ++ t)) ≡ (x == y && s == t)
unfolding text_beq
text_beq-append [] [] s t e = refl
text_beq-append [] (d ∷ y) s t e = absurd (omega arith)
text_beq-append (c ∷ x) [] s t e = absurd (omega arith)
text_beq-append (c ∷ x) (d ∷ y) s t e = ground (arith, text_beq-append x y s t (omega arith))

module _ (w : ℕ) where
  pads : (a b : ℕ) → length (pad w a) ≡ length (pad w b)
  pads a b = length-pad w a ∙ sym (length-pad w b)

text_beq-pad : (w a b : ℕ) → a < bound w → b < bound w → (pad w a == pad w b) ≡ (a == b)
unfolding pad text_beq
text_beq-pad zero a b h k = ground arith
text_beq-pad (suc w) a b h k =
    rw (text_beq-append (pad w (a / 10)) (pad w (b / 10)) _ _ (pads w (a / 10) (b / 10)))
      (ground (arith, text_beq-pad w (a / 10) (b / 10) (omega arith) (omega arith)))

ltb_text-pad : (w a b : ℕ) → a < bound w → b < bound w → ltb_text (pad w a) (pad w b) ≡ ltb a b
unfolding pad ltb_text
ltb_text-pad zero a b h k = ground arith
ltb_text-pad (suc w) a b h k =
    rw (ltb_text-append (pad w (a / 10)) (pad w (b / 10)) _ _ (pads w (a / 10) (b / 10))) (
      ground (
        arith,
        ltb_text-pad w (a / 10) (b / 10) (omega arith) (omega arith),
        text_beq-pad w (a / 10) (b / 10) (omega arith) (omega arith),
      ))

-- A field of `w` digits and the character behind it decide, or pass the decision on.
ltb_text-field :
    (w a b c : ℕ) (s t : Text)
    → a < bound w
    → b < bound w
    → ltb_text (pad w a ++ (c ∷ s)) (pad w b ++ (c ∷ t)) ≡ (ltb a b || (a == b && ltb_text s t))
ltb_text-field w a b c s t h k =
    rw (ltb_text-append (pad w a) (pad w b) (c ∷ s) (c ∷ t) (pads w a b))
      (unfold ltb_text in ground (arith, ltb_text-pad w a b h k, text_beq-pad w a b h k))

-- Every field fits the digits that it is printed with.
pub record IsPrintable (ts : DateTime) : Type 0 where
  pub year_fits : ts.year < 10000
  pub month_fits : ts.month < 100
  pub day_fits : ts.day < 100
  pub hour_fits : ts.hour < 100
  pub minute_fits : ts.minute < 100
  pub second_fits : ts.second < 100
  pub microsecond_fits : ts.microsecond < 1000000

-- The order of times: by the year, then the month, and so on.
abbrev pub earlier : DateTime → DateTime → Bool
earlier a b =
    ltb a.year b.year
    || (a.year == b.year
        && (ltb a.month b.month
            || (a.month == b.month
                && (ltb a.day b.day
                    || (a.day == b.day
                        && (ltb a.hour b.hour
                            || (a.hour == b.hour
                                && (ltb a.minute b.minute
                                    || (a.minute == b.minute
                                        && (ltb a.second b.second
                                            || (a.second == b.second
                                                && ltb a.microsecond b.microsecond)))))))))))

ltb-nil : (a b : ℕ) → (ltb a b || (a == b && ltb_text [] [])) ≡ ltb a b
unfolding ltb_text
ltb-nil a b = ground arith

-- For times with four-digit years, comparing the printed stamps as texts compares the times.
pub ltb_text-stamp :
    (a b : DateTime) → IsPrintable a → IsPrintable b → ltb_text (stamp a) (stamp b) ≡ earlier a b
unfolding stamp
ltb_text-stamp a b p q = rw (
  ltb_text-field 4 a.year b.year b'-' _ _ p.year_fits q.year_fits,
  ltb_text-field 2 a.month b.month b'-' _ _ p.month_fits q.month_fits,
  ltb_text-field 2 a.day b.day b'T' _ _ p.day_fits q.day_fits,
  ltb_text-field 2 a.hour b.hour b':' _ _ p.hour_fits q.hour_fits,
  ltb_text-field 2 a.minute b.minute b':' _ _ p.minute_fits q.minute_fits,
  ltb_text-field 2 a.second b.second b'.' _ _ p.second_fits q.second_fits,
  ltb_text-field 6 a.microsecond b.microsecond b'Z' [] [] p.microsecond_fits q.microsecond_fits,
  ltb-nil a.microsecond b.microsecond,
)
