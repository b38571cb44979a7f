-- ===== src/Orchestrator/Order/Release.antt =====
-- What one round of the launch order does to the degrees and to the ready names.
use winter_service_tmux.Prelude.{
  ℕ, ◌+◌, ◌-◌, ◌≤◌, ◌≡◌, refl, ap, ◌∙◌, inl, inr, ◌&&◌, List, [], ◌∷◌, ◌++◌, arith, leb,
  if◌then◌else◌, Bool-cases, ◌==◌, ==_iff, nat_eq, Text, text_eq,
}
use winter_service_tmux.Prelude.{count, count-append, count-head}
use winter_service_tmux.Prelude.Int.{ℤ, pos, negsuc, ◌+ℤ◌, int_eq}
use winter_service_tmux.Prelude.Dict.{Dict, insert, get_or, get_or-insert}
use winter_service_tmux.Orchestrator.Order.{release}

abbrev pub Deps : Type 0
Deps = Dict Text (List Text)

abbrev pub deps_at : Text → Deps → List Text
deps_at n deps = get_or n [] deps

-- the degrees are the numbers `r`
abbrev pub Measures : Dict Text ℤ → (Text → ℕ) → Type 0
Measures degrees r = (n : Text) → get_or n (pos 0) degrees ≡ pos (r n)

-- one for a name whose degree falls to 0, which has one at first
abbrev pub falls : ℕ → ℕ → ℕ
falls r c = if leb 1 c && r == c then 1 else 0

less_one : (k : ℕ) → 1 ≤ k → pos k +ℤ negsuc 0 ≡ pos (k - 1)
unfolding ◌+ℤ◌
less_one k h = ground (arith, h)

falls_step :
    (r c : ℕ) → 1 + c ≤ r → falls (r - 1) c + (if (r - 1) == 0 then 1 else 0) ≡ falls r (1 + c)
falls_step r c h = ground (arith, h)

falls_zero : (r : ℕ) → falls r 0 ≡ 0
falls_zero r = ground arith

-- the ready names with `x`, where its degree has fallen to 0
abbrev with_ready : ℕ → Text → List Text → List Text
with_ready left x ready = if pos left == pos 0 then ready ++ (x ∷ []) else ready

count-with_ready :
    (left : ℕ) (x n : Text) (ready : List Text)
    → count n (with_ready left x ready)
      ≡ count n ready + (if x == n then (if left == 0 then 1 else 0) else 0)
unfolding count
count-with_ready left x n ready = ground (arith, count-append n ready (x ∷ []))

release-nil :
    (degrees : Dict Text ℤ) (ready : List Text) → release [] degrees ready ≡ (degrees, ready)
unfolding release
release-nil degrees ready = refl

release-cons :
    (x : Text) (names : List Text) (degrees : Dict Text ℤ) (ready : List Text) (left : ℕ)
    → get_or x (pos 0) degrees +ℤ negsuc 0 ≡ pos left
    → release (x ∷ names) degrees ready
      ≡ release names (insert x (pos left) degrees) (with_ready left x ready)
unfolding release
release-cons x names degrees ready left h = rw h refl

-- Each name is released as often as it stands in the list, and is ready once its degree is 0.
pub release-lem :
    (names : List Text) (degrees : Dict Text ℤ) (ready : List Text) (r : Text → ℕ)
    → Measures degrees r
    → ((n : Text) → count n names ≤ r n)
    → Measures ((release names degrees ready).0) (λ n. r n - count n names)
      × ((n : Text)
          → count n ((release names degrees ready).1) ≡ count n ready + falls (r n) (count n names))
unfolding count
release-lem [] degrees ready r m h = (
  λ n. rw (release-nil degrees ready) (m n ∙ ap pos (omega arith)),
  λ n. rw (release-nil degrees ready) (omega (arith, falls_zero (r n))),
)
release-lem (x ∷ names) degrees ready r m h =
    let left = r x - 1 in
    let (measures, counts) =
      release-lem names (insert x (pos left) degrees) (with_ready left x ready) r' m' h' in
    (
      λ n.
          rw
            (release-cons x names degrees ready left
              (ap (λ d. d +ℤ negsuc 0) (m x) ∙ less_one (r x) positive))
            (measures n ∙ ap pos (omega arith)),
      λ n.
          rw
            (release-cons x names degrees ready left
              (ap (λ d. d +ℤ negsuc 0) (m x) ∙ less_one (r x) positive))
            (counts n ∙ total n),
    )
  where
    r' : Text → ℕ
    r' n = r n - (if x == n then 1 else 0)

    positive : 1 ≤ r x
    positive = omega (arith, h x, count-head x names)

    m' : Measures (insert x (pos (r x - 1)) degrees) r'
    m' n = elim (Bool-cases (x == n)) [
      | inl e ↦
          rw (get_or-insert x n (pos (r x - 1)) (pos 0) degrees, e)
            (ap (λ y. pos (r y - 1)) ((==_iff x n).0 e))
      | inr e ↦
          rw (get_or-insert x n (pos (r x - 1)) (pos 0) degrees, e) (m n ∙ ap pos (omega arith))
    ]

    h' : (n : Text) → count n names ≤ r' n
    h' n = omega (arith, h n)

    total :
        (n : Text)
        → count n (with_ready (r x - 1) x ready) + falls (r' n) (count n names)
          ≡ count n ready + falls (r n) ((if x == n then 1 else 0) + count n names)
    total n = elim (Bool-cases (x == n)) [
      | inl e ↦
          let fits : 1 + count n names ≤ r n = rw e at (h n) in
          rw (count-with_ready (r x - 1) x n ready, e, (==_iff x n).0 e)
            (omega (arith, falls_step (r n) (count n names) fits))
      | inr e ↦ rw (count-with_ready (r x - 1) x n ready, e) (ground arith)
    ]
