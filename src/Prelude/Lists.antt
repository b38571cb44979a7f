-- ===== src/Prelude/Lists.antt =====
-- Lists measured by native numbers and filtered by Boolean tests.
use Prim.Native.Nat.{ℕ, zero, suc, ◌+◌, ◌-◌, ◌≤◌}
use mathlib.Core.Path.{◌≡◌, refl, ap, sym, subst}
use mathlib.Core.Logic.{◌⊎◌, inl, inr, ◌↔◌}
use mathlib.Core.Bool.{Bool, true, false, ◌&&◌, ◌||◌}
use mathlib.Core.List.{List, [], ◌∷◌, ◌++◌}
use native.Mathlib.Omega.{arith}
use winter_service_tmux.Prelude.Equality.{Eq, ==_iff, contains}
use winter_service_tmux.Prelude.Tests.{if◌then◌else◌, Bool-cases}

module _ {ℓ} {A : Type ℓ} where
  abbrev pub length : List A → ℕ
  length [] = 0
  length (x ∷ xs) = suc (length xs)

  abbrev pub take : ℕ → List A → List A
  take zero xs = []
  take (suc n) [] = []
  take (suc n) (x ∷ xs) = x ∷ take n xs

  abbrev pub drop : ℕ → List A → List A
  drop zero xs = xs
  drop (suc n) [] = []
  drop (suc n) (x ∷ xs) = drop n xs

  -- `[x for x in xs if p(x)]`
  unfoldable pub filter : (A → Bool) → List A → List A
  filter p [] = []
  filter p (x ∷ xs) = let rest = filter p xs in if p x then x ∷ rest else rest

  unfoldable pub any : (A → Bool) → List A → Bool
  any p [] = false
  any p (x ∷ xs) = p x || any p xs

  unfoldable pub all : (A → Bool) → List A → Bool
  all p [] = true
  all p (x ∷ xs) = p x && all p xs

module _ {ℓ} {A : Type ℓ} where
  pub length-append : (xs ys : List A) → length (xs ++ ys) ≡ length xs + length ys
  length-append [] ys = omega arith
  length-append (x ∷ xs) ys = omega (arith, length-append xs ys)

  pub take-append-drop : (n : ℕ) (xs : List A) → take n xs ++ drop n xs ≡ xs
  take-append-drop zero xs = refl
  take-append-drop (suc n) [] = refl
  take-append-drop (suc n) (x ∷ xs) = ap (λ l. x ∷ l) (take-append-drop n xs)

  pub length-drop : (n : ℕ) (xs : List A) → length (drop n xs) ≡ length xs - n
  length-drop zero xs = omega arith
  length-drop (suc n) [] = omega arith
  length-drop (suc n) (x ∷ xs) = omega (arith, length-drop n xs)

  pub drop-append : (xs ys : List A) → drop (length xs) (xs ++ ys) ≡ ys
  drop-append [] ys = refl
  drop-append (x ∷ xs) ys = drop-append xs ys

  pub filter-append :
      (p : A → Bool) (xs ys : List A) → filter p (xs ++ ys) ≡ filter p xs ++ filter p ys
  unfolding filter
  filter-append p [] ys = refl
  filter-append p (x ∷ xs) ys = ground (arith, filter-append p xs ys)

  pub length-filter-le : (p : A → Bool) (xs : List A) → length (filter p xs) ≤ length xs
  unfolding filter
  length-filter-le p [] = omega arith
  length-filter-le p (x ∷ xs) = ground (arith, length-filter-le p xs)

module _ {ℓ κ} {A : Type ℓ} (P : A → Type κ) where
  abbrev pub All : List A → Type κ
  All [] = Unit
  All (x ∷ xs) = P x × All xs

  pub All-append : (xs ys : List A) → All xs → All ys → All (xs ++ ys)
  All-append [] ys _ hy = hy
  All-append (x ∷ xs) ys (px, hx) hy = (px, All-append xs ys hx hy)

pub All-map {ℓ κ} :
    {A : Type ℓ} {P Q : A → Type κ} → ((a : A) → P a → Q a) → (xs : List A) → All P xs → All Q xs
All-map f [] h = tt
All-map f (x ∷ xs) h = (f x (h.0), All-map f xs (h.1))

-- `x` stands in the list.
abbrev pub In : {A : Type 0} → A → List A → Type 0
In x [] = ⊥
In x (y ∷ ys) = (y ≡ x) ⊎ In x ys

pub All-In : {A : Type 0} (xs : List A) → All (λ x. In x xs) xs
All-In [] = tt
All-In (x ∷ xs) = (inl refl, All-map (λ y h. inr h) xs (All-In xs))

pub All-filter {ℓ κ} :
    {A : Type ℓ} (P : A → Type κ) (p : A → Bool) (xs : List A) → All P xs → All P (filter p xs)
unfolding filter
All-filter P p [] h = tt
All-filter P p (x ∷ xs) (px, h) = elim (Bool-cases (p x)) [
  | inl e ↦ rw (e, filter) (px, All-filter P p xs h)
  | inr e ↦ rw (e, filter) (All-filter P p xs h)
]

pub In-snoc : {A : Type 0} (x y : A) (l : List A) → In x (l ++ (y ∷ [])) → In x l ⊎ (y ≡ x)
In-snoc x y [] (inl e) = inr e
In-snoc x y [] (inr h) = elim h [ ]
In-snoc x y (z ∷ l) (inl e) = inl (inl e)
In-snoc x y (z ∷ l) (inr h) = elim (In-snoc x y l h) [ inl a ↦ inl (inr a) | inr e ↦ inr e ]

pub In-last : {A : Type 0} (x : A) (l : List A) → In x (l ++ (x ∷ []))
In-last x [] = inl refl
In-last x (z ∷ l) = inr (In-last x l)

pub In-append : {A : Type 0} (x : A) (l m : List A) → In x l → In x (l ++ m)
In-append x [] m h = elim h [ ]
In-append x (z ∷ l) m (inl e) = inl e
In-append x (z ∷ l) m (inr h) = inr (In-append x l m h)

pub All-at : {A : Type 0} (P : A → Type 0) (xs : List A) → All P xs → (v : A) → In v xs → P v
All-at P [] h v i = elim i [ ]
All-at P (x ∷ xs) (px, h) v (inl e) = rw (sym e) px
All-at P (x ∷ xs) (px, h) v (inr i) = All-at P xs h v i

-- no element stands twice
abbrev pub Distinct : {A : Type 0} → List A → Type 0
Distinct [] = Unit
Distinct (x ∷ xs) = (¬ In x xs) × Distinct xs

pub nil_of_append {ℓ} : {A : Type ℓ} (xs ys : List A) → xs ++ ys ≡ [] → (xs ≡ []) × (ys ≡ [])
nil_of_append [] ys e = (refl, e)
nil_of_append (x ∷ xs) ys e = absurd (cc e)

pub contains-In : {A : Type 0} ⦃e : Eq A⦄ (x : A) (xs : List A) → (contains x xs ≡ true) ↔ In x xs
unfolding contains
contains-In x [] = (λ h. absurd (cc h), λ h. elim h [ ])
contains-In x (y ∷ xs) = ground (arith, contains-In x xs, ==_iff x y)

pub In-prepend : {A : Type 0} (x : A) (l m : List A) → In x m → In x (l ++ m)
In-prepend x [] m h = h
In-prepend x (z ∷ l) m h = inr (In-prepend x l m h)

pub All-drop {ℓ κ} :
    {A : Type ℓ} (P : A → Type κ) (n : ℕ) (xs : List A) → All P xs → All P (drop n xs)
All-drop P zero xs h = h
All-drop P (suc n) [] h = tt
All-drop P (suc n) (x ∷ xs) (_, h) = All-drop P n xs h

pub In-filter :
    {A : Type 0} (p : A → Bool) (xs : List A) (x : A) → In x (filter p xs) → In x xs × (p x ≡ true)
unfolding filter
In-filter p [] x i = elim i [ ]
In-filter p (y ∷ xs) x i = elim (Bool-cases (p y)) [
  | inl e ↦
      let j : In x (y ∷ filter p xs) = rw e at i in
      elim j [
        | inl same ↦ (inl same, subst (λ z. p z ≡ true) same e)
        | inr k ↦ let (inside, holds) = In-filter p xs x k in (inr inside, holds)
      ]
  | inr e ↦
      let j : In x (filter p xs) = rw e at i in
      let (inside, holds) = In-filter p xs x j in (inr inside, holds)
]
