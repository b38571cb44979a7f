-- ===== src/Manifest/Cycle/Colors.antt =====
-- The colours of the search, and the white names left, by which its depth is measured.
use winter_service_tmux.Prelude.{
  ℕ, suc, ◌+◌, ◌≤◌, ◌<◌, ◌≡◌, refl, ap, ◌≢◌, ◌⊎◌, inl, inr, List, [], ◌∷◌, ◌++◌, arith, Bool-cases,
  ◌==◌, ==_iff, ==_refl, nat_eq, Text, text_eq, In, length,
}
use winter_service_tmux.Prelude.Dict.{Dict, keys, insert, get_or, get_or-insert}
use winter_service_tmux.Manifest.Cycle.{
  Graph, Color, white, gray, black, Search, neighbors, pop, all_white,
}

abbrev pub color_of : Text → Search → Color
color_of n s = get_or n white s.color

abbrev pub is_white : Color → ℕ
is_white white = 1
is_white gray = 0
is_white black = 0

-- how many of the names are white
unfoldable pub whites : List Text → Dict Text Color → ℕ
whites [] c = 0
whites (k ∷ ks) c = is_white (get_or k white c) + whites ks c

pub pop-append : (l : List Text) (x : Text) → pop (l ++ (x ∷ [])) ≡ l
unfolding pop
pop-append [] x = refl
pop-append (y ∷ []) x = refl
pop-append (y ∷ z ∷ l) x = ap (λ t. y ∷ t) (pop-append (z ∷ l) x)

pub Color-cases : (c : Color) → (c ≡ white) ⊎ (c ≡ gray) ⊎ (c ≡ black)
Color-cases white = inl refl
Color-cases gray = inr (inl refl)
Color-cases black = inr (inr refl)

pub whites-insert :
    (k : Text) (c : Color) (ks : List Text) (d : Dict Text Color)
    → is_white c ≡ 0
    → whites ks (insert k c d) ≤ whites ks d
unfolding whites
whites-insert k c [] d h = omega arith
whites-insert k c (j ∷ ks) d h =
    ground (arith, get_or-insert k j c white d, whites-insert k c ks d h)

-- a name of the graph that turns gray was one of the white names
pub whites-enter :
    (n : Text) (ks : List Text) (d : Dict Text Color)
    → In n ks
    → get_or n white d ≡ white
    → whites ks (insert n gray d) < whites ks d
unfolding whites
whites-enter n [] d i h = elim i [ ]
whites-enter n (j ∷ ks) d (inl e) h =
    rw (e, get_or-insert n n gray white d, ==_refl n, h)
      (omega (arith, whites-insert n gray ks d refl))
whites-enter n (j ∷ ks) d (inr i) h =
    ground (arith, get_or-insert n j gray white d, whites-enter n ks d i h)

-- a name with neighbours is a name of the graph
pub neighbors-In : (n : Text) (d : Graph) → (neighbors d n ≡ []) ⊎ In n (keys d)
unfolding neighbors get_or keys
neighbors-In n [] = inl refl
neighbors-In n ((k, ns) ∷ d) = elim (Bool-cases (k == n)) [
  | inl e ↦ inr (inl ((==_iff k n).0 e))
  | inr e ↦ elim (neighbors-In n d) [ inl empty ↦ rw e (inl empty) | inr i ↦ inr (inr i) ]
]

-- the colour of `m` behind an assignment to `n`
pub color-insert :
    (n m : Text) (c c' : Color) (d : Dict Text Color)
    → get_or m white (insert n c d) ≡ c'
    → ((n ≡ m) × (c ≡ c')) ⊎ ((n ≢ m) × (get_or m white d ≡ c'))
color-insert n m c c' d h = ground (arith, get_or-insert n m c white d, ==_iff n m, h)

pub whites-le-length : (ks : List Text) (d : Dict Text Color) → whites ks d ≤ length ks
unfolding whites
whites-le-length [] d = omega arith
whites-le-length (k ∷ ks) d = elim (Color-cases (get_or k white d)) [
  | inl e ↦ rw e (omega (arith, whites-le-length ks d))
  | inr (inl e) ↦ rw e (omega (arith, whites-le-length ks d))
  | inr (inr e) ↦ rw e (omega (arith, whites-le-length ks d))
]

pub length-keys : (d : Graph) → length (keys d) ≡ length d
unfolding keys
length-keys [] = refl
length-keys ((k, v) ∷ d) = ap suc (length-keys d)

pub get_or-all_white : (n : Text) (ks : List Text) → get_or n white (all_white ks) ≡ white
unfolding get_or all_white
get_or-all_white n [] = refl
get_or-all_white n (k ∷ ks) = ground (arith, get_or-all_white n ks)
