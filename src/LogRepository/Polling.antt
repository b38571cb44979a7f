-- ===== src/LogRepository/Polling.antt =====
-- Polling a growing file by byte offsets reads every complete line once.
use winter_service_tmux.Prelude.{
  ℕ, zero, suc, ◌+◌, ◌≤◌, ◌≡◌, refl, sym, ap, ◌∙◌, ◌≢◌, ◌⊎◌, inl, inr, Bool, true, false, ◌&&◌,
  Option, none, some, List, [], ◌∷◌, ◌++◌, append_assoc, arith, if◌then◌else◌, Bool-cases,
  Option-cases, ◌==◌, nat_eq, Text, text_eq, length, take, drop, filter, length-append, length-drop,
  filter-append,
}
use mathlib.Core.List.{map-append}
use winter_service_tmux.Prelude.Str.{splitlines, on_head, is_break}
use winter_service_tmux.Logwriter.{Bytes}
use winter_service_tmux.LogRepository.{rfind, lines_of, read_new_lines}

-- The bytes up to the last newline, and those behind it.
complete : Bytes → Bytes
complete [] = []
complete (x ∷ xs) = elim (complete xs) [
  | [] ↦ if x == b'\n' then x ∷ [] else []
  | y ∷ ys ↦ x ∷ y ∷ ys
]

rest : Bytes → Bytes
rest a = drop (length (complete a)) a

upto : Option ℕ → Bytes → Bytes
upto none a = []
upto (some i) a = take (suc i) a

complete-rfind : (a : Bytes) → complete a ≡ upto (rfind b'\n' a) a
unfolding complete rfind upto
complete-rfind [] = refl
complete-rfind (x ∷ xs) = ground (arith, complete-rfind xs)

complete-append : (a c : Bytes) → complete (a ++ c) ≡ complete a ++ complete (rest a ++ c)
unfolding complete rest
complete-append [] c = refl
complete-append (x ∷ xs) c = ground (arith, complete-append xs c)

length-complete_le : (a : Bytes) → length (complete a) ≤ length a
unfolding complete
length-complete_le [] = omega arith
length-complete_le (x ∷ xs) = ground (arith, length-complete_le xs)

drop-nil : (n : ℕ) → drop {A = ℕ} n [] ≡ []
drop-nil zero = refl
drop-nil (suc n) = refl

drop-drop : (n k : ℕ) (a : Bytes) → drop (n + k) a ≡ drop k (drop n a)
drop-drop zero k a = ap (λ n. drop n a) (omega arith)
drop-drop (suc n) k [] = drop-nil (suc n + k) ∙ sym (drop-nil k)
drop-drop (suc n) k (x ∷ a) =
    let e : suc n + k ≡ suc (n + k) = omega arith in rw e (drop-drop n k a)

drop-append_le : (n : ℕ) (a c : Bytes) → n ≤ length a → drop n (a ++ c) ≡ drop n a ++ c
drop-append_le zero a c h = refl
drop-append_le (suc n) [] c h = elim h [ ]
drop-append_le (suc n) (x ∷ a) c h = drop-append_le n a c (omega arith)

splitlines-ne-nil : (d : ℕ) (s : Text) → splitlines (d ∷ s) ≢ []
unfolding splitlines
splitlines-ne-nil d [] = ground arith
splitlines-ne-nil d (e ∷ s) = ground arith

-- One round of `splitlines`, in front of further lines.
glue :
    (two one : Bool) (c : ℕ) (rest beyond more : List Text)
    → rest ≢ []
    → (if two
        then [] ∷ beyond ++ more
        else if one
        then [] ∷ rest ++ more
        else on_head c (rest ++ more))
      ≡ (if two then [] ∷ beyond else if one then [] ∷ rest else on_head c rest) ++ more
glue true one c rest beyond more h = refl
glue false true c rest beyond more h = refl
glue false false c [] beyond more h = absurd (h refl)
glue false false c (w ∷ rest) beyond more h = refl

-- A break ends the lines before it.
pub splitlines-newline :
    (x y : Text) → splitlines (x ++ (b'\n' ∷ y)) ≡ splitlines (x ++ (b'\n' ∷ [])) ++ splitlines y
unfolding splitlines
splitlines-newline [] [] = refl
splitlines-newline [] (d ∷ y) = refl
splitlines-newline (c ∷ []) [] = ground arith
splitlines-newline (c ∷ []) (d ∷ y) = ground arith
splitlines-newline (c ∷ d ∷ x) y =
    rw (splitlines-newline (d ∷ x) y, splitlines-newline x y)
      (glue (c == 13 && d == 10) (is_break c) c _ _ _ (splitlines-ne-nil d (x ++ (b'\n' ∷ []))))

complete_cases : (a : Bytes) → (complete a ≡ []) ⊎ ((p : Bytes) × (complete a ≡ p ++ (b'\n' ∷ [])))
unfolding complete
complete_cases [] = inl refl
complete_cases (x ∷ xs) = elim (complete_cases xs) [
  | inl e ↦ elim (Bool-cases (x == b'\n')) [
    | inl h ↦ inr ([], ground (arith, e))
    | inr h ↦ inl (ground (arith, e))
  ]
  | inr ([], e) ↦ inr (x ∷ [], ground (arith, e))
  | inr (d ∷ p, e) ↦ inr (x ∷ d ∷ p, ground (arith, e))
]

lines_of-newline :
    (x y : Text) → lines_of (x ++ (b'\n' ∷ y)) ≡ lines_of (x ++ (b'\n' ∷ [])) ++ lines_of y
unfolding lines_of
lines_of-newline x y = rw (splitlines-newline, filter-append, map-append)

-- What the program relies on of UTF-8 decoding with `errors="replace"`: a newline byte is a
-- character of its own, wherever it stands, so the text can be decoded line by line.
pub record DecodesByLine (decode : Bytes → Text) : Type 0 where
  pub nothing : decode [] ≡ []
  pub newline : (p q : Bytes) → decode (p ++ (b'\n' ∷ q)) ≡ decode p ++ (b'\n' ∷ decode q)

module _ (decode : Bytes → Text) (d : DecodesByLine decode) where
  lines-complete :
      (a q : Bytes)
      → lines_of (decode (complete a ++ q)) ≡ lines_of (decode (complete a)) ++ lines_of (decode q)
  unfolding filter splitlines
  lines-complete a q = elim (complete_cases a) [
    | inl e ↦ rw (e, d.nothing) (unfold lines_of in refl)
    | inr (p, e) ↦
        rw (e, append_assoc, d.newline, d.newline p [], d.nothing)
          (lines_of-newline (decode p) (decode q))
  ]

  read_new_lines_lem :
      (a : Bytes) (o : ℕ)
      → read_new_lines decode (some a) o
        ≡ (lines_of (decode (complete (drop o a))), o + length (complete (drop o a)))
  unfolding read_new_lines upto lines_of filter splitlines
  read_new_lines_lem a o = elim (Option-cases (rfind b'\n' (drop o a))) [
    | inl e ↦ rw (complete-rfind (drop o a), e, read_new_lines, d.nothing) (ground arith)
    | inr (i, e) ↦ rw (complete-rfind (drop o a), e, read_new_lines) refl
  ]

  -- Where the grown file is read next.
  drop-grown :
      (a c : Bytes) (o : ℕ)
      → o ≤ length a
      → drop (o + length (complete (drop o a))) (a ++ c) ≡ rest (drop o a) ++ c
  unfolding rest
  drop-grown a c o h =
      rw (drop-drop o (length (complete (drop o a))) (a ++ c), drop-append_le o a c h)
        (drop-append_le (length (complete (drop o a))) (drop o a) c (length-complete_le (drop o a)))

  -- Two polls of a file that grows in between read what one poll of the grown file reads.
  pub read_new_lines-append :
      (a c : Bytes) (o : ℕ)
      → o ≤ length a
      → let (first, o') = read_new_lines decode (some a) o in
        let (second, o'') = read_new_lines decode (some (a ++ c)) o' in
        read_new_lines decode (some (a ++ c)) o ≡ (first ++ second, o'')
  read_new_lines-append a c o h =
      rw
        (
          read_new_lines_lem a o,
          read_new_lines_lem (a ++ c) (o + length (complete (drop o a))),
          read_new_lines_lem (a ++ c) o,
          drop-grown a c o h,
          drop-append_le o a c h,
          complete-append (drop o a) c,
          lines-complete (drop o a) (complete (rest (drop o a) ++ c)),
          length-append (complete (drop o a)) (complete (rest (drop o a) ++ c)),
        )
        (ground arith)

  -- A poll never goes past the end of the file.
  pub offset_le :
      (a : Bytes) (o : ℕ) → o ≤ length a → (read_new_lines decode (some a) o).1 ≤ length a
  offset_le a o h =
      rw (read_new_lines_lem a o) (omega (arith, length-complete_le (drop o a), length-drop o a))
