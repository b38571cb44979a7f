-- ===== src/Prelude/Str.antt =====
-- The operations of Python's `str` that the program uses, over code points.
use Prim.Native.Char.{code}
use Prim.Native.String.{String}
use Prim.Native.Nat.{ℕ, zero, suc, ◌+◌, ◌-◌, ◌*◌, ◌/◌, ◌%◌}
use mathlib.Core.Path.{◌≡◌, refl}
use mathlib.Core.Bool.{Bool, true, false, ◌&&◌, ◌||◌}
use mathlib.Core.Option.{Option, none, some}
use mathlib.Core.List.{List, [], ◌∷◌, ◌++◌}
use winter_service_tmux.Prelude.Tests.{ltb, leb, if◌then◌else◌}
use winter_service_tmux.Prelude.Equality.{Text, text_eq, nat_eq, ◌==◌}
use winter_service_tmux.Prelude.Int.{ℤ, pos, negsuc, sub_ℕ}

-- The code points of a literal.
abbrev pub codes : String → Text
codes String.[] = []
codes (String.◌∷◌ c s) = code c ∷ codes s

-- `c.isspace()`, the characters that `strip` removes
unfoldable pub is_space : ℕ → Bool
is_space c =
    (leb 9 c && leb c 13)
    || (leb 28 c && leb c 32)
    || c == 133
    || c == 160
    || c == 5760
    || (leb 8192 c && leb c 8202)
    || c == 8232
    || c == 8233
    || c == 8239
    || c == 8287
    || c == 12288

unfoldable pub lstrip : Text → Text
unfolding is_space
lstrip [] = []
lstrip (c ∷ s) = let rest = lstrip s in if is_space c then rest else c ∷ s

unfoldable pub rstrip : Text → Text
unfolding is_space
rstrip [] = []
rstrip (c ∷ s) = elim (rstrip s) [ [] ↦ if is_space c then [] else c ∷ [] | d ∷ t ↦ c ∷ d ∷ t ]

-- `s.rstrip("\n")`
unfoldable pub rstrip_newlines : Text → Text
rstrip_newlines [] = []
rstrip_newlines (c ∷ s) = elim (rstrip_newlines s) [
  | [] ↦ if c == b'\n' then [] else c ∷ []
  | d ∷ t ↦ c ∷ d ∷ t
]

-- `s.strip()`
unfoldable pub strip : Text → Text
unfolding lstrip rstrip
strip s = rstrip (lstrip s)

-- `s.startswith(p)`, with the rest behind the prefix
unfoldable pub strip_prefix : Text → Text → Option Text
strip_prefix [] s = some s
strip_prefix (_ ∷ _) [] = none
strip_prefix (c ∷ p) (d ∷ s) = let rest = strip_prefix p s in if c == d then rest else none

unfoldable pub starts_with : Text → Text → Bool
unfolding strip_prefix
starts_with s p = elim (strip_prefix p s) [ none ↦ false | some _ ↦ true ]

-- `s.split(c, 1)` where `c` occurs: the texts before and behind the first `c`
unfoldable pub split_first : ℕ → Text → Option (Text × Text)
split_first c [] = none
split_first c (d ∷ s) = elim (d == c) [
  | true ↦ some ([], s)
  | false ↦ elim (split_first c s) [ none ↦ none | some (a, b) ↦ some (d ∷ a, b) ]
]

abbrev pub on_head : ℕ → List Text → List Text
on_head c [] = (c ∷ []) ∷ []
on_head c (w ∷ ws) = (c ∷ w) ∷ ws

-- `s.split(c)`
unfoldable pub split : ℕ → Text → List Text
split c [] = [] ∷ []
split c (d ∷ s) = let rest = split c s in if d == c then [] ∷ rest else on_head d rest

-- `sep.join(parts)`
unfoldable pub join : Text → List Text → Text
join sep [] = []
join sep (w ∷ []) = w
join sep (w ∷ v ∷ ws) = w ++ (sep ++ join sep (v ∷ ws))

abbrev pub is_break : ℕ → Bool
is_break c = (leb 10 c && leb c 13) || (leb 28 c && leb c 30) || c == 133 || c == 8232 || c == 8233

-- `s.splitlines()`: `\r\n` is one break, and no line follows a final break
unfoldable pub splitlines : Text → List Text
splitlines [] = []
splitlines (c ∷ []) = if is_break c then [] ∷ [] else (c ∷ []) ∷ []
splitlines (c ∷ d ∷ s) =
    let rest = splitlines (d ∷ s) in
    let beyond = splitlines s in
    if c == 13 && d == 10 then [] ∷ beyond else if is_break c then [] ∷ rest else on_head c rest

-- the zeros of the decimal digits of Unicode 15.1, `\d`; its nine others follow each
abbrev digit_zeros : List ℕ
digit_zeros =
    48 ∷ 1632 ∷ 1776 ∷ 1984 ∷ 2406 ∷ 2534 ∷ 2662 ∷ 2790 ∷ 2918 ∷ 3046 ∷ 3174 ∷ 3302 ∷ 3430 ∷ 3558
    ∷ 3664 ∷ 3792 ∷ 3872 ∷ 4160 ∷ 4240 ∷ 6112 ∷ 6160 ∷ 6470 ∷ 6608 ∷ 6784 ∷ 6800 ∷ 6992 ∷ 7088
    ∷ 7232 ∷ 7248 ∷ 42528 ∷ 43216 ∷ 43264 ∷ 43472 ∷ 43504 ∷ 43600 ∷ 44016 ∷ 65296 ∷ 66720 ∷ 68912
    ∷ 69734 ∷ 69872 ∷ 69942 ∷ 70096 ∷ 70384 ∷ 70736 ∷ 70864 ∷ 71248 ∷ 71360 ∷ 71472 ∷ 71904 ∷ 72016
    ∷ 72784 ∷ 73040 ∷ 73120 ∷ 73552 ∷ 92768 ∷ 92864 ∷ 93008 ∷ 120782 ∷ 120792 ∷ 120802 ∷ 120812
    ∷ 120822 ∷ 123200 ∷ 123632 ∷ 124144 ∷ 125264 ∷ 130032 ∷ []

abbrev digit_from : List ℕ → ℕ → Option ℕ
digit_from [] c = none
digit_from (z ∷ zs) c =
    let rest = digit_from zs c in if leb z c && leb c (z + 9) then some (c - z) else rest

-- the value of a decimal digit; the ASCII ones, the first block, are tested first
unfoldable pub digit_value : ℕ → Option ℕ
digit_value c = if leb c 127 then digit_from (48 ∷ []) c else digit_from digit_zeros c

-- `int` of digits, where one `_` may stand between two digits
unfoldable pub digits_value : ℕ → Text → Option ℕ
unfolding digit_value
digits_value n [] = some n
digits_value n (c ∷ []) = elim (digit_value c) [ none ↦ none | some d ↦ some (n * 10 + d) ]
digits_value n (c ∷ d ∷ s) = elim (digit_value c) [
  | none ↦ none
  | some v ↦
      let plain = digits_value (n * 10 + v) (d ∷ s) in
      let under = digits_value (n * 10 + v) s in
      if d == b'_' then (elim s [ [] ↦ none | _ ∷ _ ↦ under ]) else plain
]

abbrev magnitude : Text → Option ℕ
magnitude [] = none
magnitude (c ∷ s) = digits_value 0 (c ∷ s)

abbrev signed : Text → Option ℤ
signed [] = none
signed (c ∷ s) =
    if c == b'-'
    then (elim (magnitude s) [ none ↦ none | some n ↦ some (sub_ℕ 0 n) ])
    else if c == b'+'
    then (elim (magnitude s) [ none ↦ none | some n ↦ some (pos n) ])
    else elim (magnitude (c ∷ s)) [ none ↦ none | some n ↦ some (pos n) ]

-- `int(s)`, with `none` for a ValueError
unfoldable pub to_int : Text → Option ℤ
unfolding digits_value strip
to_int s = signed (strip s)

-- `s1 < s2` on `str`: by code points, from the left
unfoldable pub ltb_text : Text → Text → Bool
ltb_text s [] = false
ltb_text [] (_ ∷ _) = true
ltb_text (c ∷ s) (d ∷ t) = ltb c d || (c == d && ltb_text s t)

to_int_runs :
    (to_int (codes " -1_2 ") ≡ some (sub_ℕ 0 12))
    × (to_int (codes "1__2") ≡ none)
    × (to_int (codes "7_") ≡ none)
    × (to_int (codes "") ≡ none)
    × (to_int (1637 ∷ 1632 ∷ []) ≡ some (pos 50))
unfolding to_int
to_int_runs = (refl, refl, refl, refl, refl)

splitlines_runs : splitlines (codes "a\r\nb\n\nc\n") ≡ codes "a" ∷ codes "b" ∷ [] ∷ codes "c" ∷ []
unfolding splitlines
splitlines_runs = refl

-- `str(n)`: a round takes the last digit off, and `n` rounds are more than enough.
unfoldable digits_before : ℕ → ℕ → Text → Text
digits_before zero n behind = (48 + n % 10) ∷ behind
digits_before (suc fuel) n behind =
    if leb n 9 then (48 + n) ∷ behind else digits_before fuel (n / 10) ((48 + n % 10) ∷ behind)

unfoldable pub show_nat : ℕ → Text
unfolding digits_before
show_nat n = digits_before n n []

unfoldable pub show_int : ℤ → Text
unfolding show_nat
show_int (pos n) = show_nat n
show_int (negsuc n) = b'-' ∷ show_nat (suc n)
