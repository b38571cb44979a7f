-- ===== src/Manifest/ScopePath/Inside.antt =====
-- A relative path escapes its scope root exactly when a walk along its components leaves the root.
use winter_service_tmux.Prelude.{
  ℕ, zero, suc, ◌≡◌, refl, ◌∙◌, inl, inr, Bool, true, false, not, ◌||◌, List, [], ◌∷◌, arith,
  if◌then◌else◌, Bool-cases, ◌==◌, nat_eq, Text, text_eq, text_beq, contains, length, All,
}
use winter_service_tmux.Prelude.Str.{on_head, split, join, starts_with, strip_prefix}
use winter_service_tmux.Manifest.ScopePath.{
  is_up, is_here, or_dot, push, push_all, reverse_onto, normpath, escapes,
}

-- The walk along the components stays below the root, from a directory `depth` below it.
unfoldable pub stays : ℕ → List Text → Bool
stays depth [] = true
stays zero (comp ∷ comps) =
    let here = stays zero comps in
    let down = stays (suc zero) comps in
    if is_here comp then here else if is_up comp then false else down
stays (suc depth) (comp ∷ comps) =
    let here = stays (suc depth) comps in
    let down = stays (suc (suc depth)) comps in
    let up = stays depth comps in if is_here comp then here else if is_up comp then up else down

-- the oldest component on the stack is `..`
unfoldable bottom_up : List Text → Bool
bottom_up [] = false
bottom_up (w ∷ []) = is_up w
bottom_up (w ∷ v ∷ s) = bottom_up (v ∷ s)

abbrev HasNoUp : List Text → Type 0
HasNoUp = All (λ w. is_up w ≡ false)

bottom_up-push : (comp : Text) (s : List Text) → bottom_up s ≡ true → bottom_up (push comp s) ≡ true
unfolding bottom_up push
bottom_up-push comp [] h = absurd (cc h)
bottom_up-push comp (w ∷ []) h = ground (arith, h)
bottom_up-push comp (w ∷ v ∷ s) h = ground (arith, h)

bottom_up-push_all :
    (comps s : List Text) → bottom_up s ≡ true → bottom_up (push_all comps s) ≡ true
unfolding push_all
bottom_up-push_all [] s h = h
bottom_up-push_all (comp ∷ comps) s h =
    bottom_up-push_all comps (push comp s) (bottom_up-push comp s h)

bottom_up-HasNoUp : (s : List Text) → HasNoUp s → bottom_up s ≡ false
unfolding bottom_up
bottom_up-HasNoUp [] h = refl
bottom_up-HasNoUp (w ∷ []) (h, _) = h
bottom_up-HasNoUp (w ∷ v ∷ s) (_, h) = bottom_up-HasNoUp (v ∷ s) h

push_all-stays :
    (comps s : List Text) → HasNoUp s → bottom_up (push_all comps s) ≡ not (stays (length s) comps)
unfolding push_all push stays bottom_up
push_all-stays [] s h = bottom_up-HasNoUp s h
push_all-stays (comp ∷ comps) [] h = elim (Bool-cases (is_here comp)) [
  | inl e ↦ rw e (push_all-stays comps [] h)
  | inr e ↦ elim (Bool-cases (is_up comp)) [
    | inl u ↦ rw (e, u) (bottom_up-push_all comps (comp ∷ []) u)
    | inr u ↦ rw (e, u) (push_all-stays comps (comp ∷ []) (u, tt))
  ]
]
push_all-stays (comp ∷ comps) (w ∷ s) (hw, h) = elim (Bool-cases (is_here comp)) [
  | inl e ↦ rw e (push_all-stays comps (w ∷ s) (hw, h))
  | inr e ↦ elim (Bool-cases (is_up comp)) [
    | inl u ↦ rw (e, u, hw) (push_all-stays comps s h)
    | inr u ↦ rw (e, u) (push_all-stays comps (comp ∷ w ∷ s) (u, (hw, h)))
  ]
]

abbrev first_up : List Text → Bool
first_up [] = false
first_up (w ∷ _) = is_up w

first_up-reverse_onto :
    (w : Text) (s behind : List Text) → first_up (reverse_onto (w ∷ s) behind) ≡ bottom_up (w ∷ s)
unfolding reverse_onto bottom_up
first_up-reverse_onto w [] behind = refl
first_up-reverse_onto w (v ∷ s) behind = first_up-reverse_onto v s (w ∷ behind)

abbrev HasNoSlash : Text → Type 0
HasNoSlash w = contains b'/' w ≡ false

push-All :
    (comp : Text) (s : List Text)
    → HasNoSlash comp
    → All HasNoSlash s
    → All HasNoSlash (push comp s)
unfolding push
push-All comp [] hc h = elim (Bool-cases (is_here comp)) [ inl e ↦ rw e tt | inr e ↦ rw e (hc, tt) ]
push-All comp (w ∷ s) hc (hw, h) = elim (Bool-cases (is_here comp)) [
  | inl e ↦ rw e (hw, h)
  | inr e ↦ elim (Bool-cases (is_up comp)) [
    | inl u ↦ elim (Bool-cases (is_up w)) [
      | inl v ↦ rw (e, u, v) (hc, (hw, h))
      | inr v ↦ rw (e, u, v) h
    ]
    | inr u ↦ rw (e, u) (hc, (hw, h))
  ]
]

push_all-All :
    (comps s : List Text)
    → All HasNoSlash comps
    → All HasNoSlash s
    → All HasNoSlash (push_all comps s)
unfolding push_all
push_all-All [] s _ h = h
push_all-All (comp ∷ comps) s (hc, hs) h =
    push_all-All comps (push comp s) hs (push-All comp s hc h)

reverse_onto-All :
    (s behind : List Text)
    → All HasNoSlash s
    → All HasNoSlash behind
    → All HasNoSlash (reverse_onto s behind)
unfolding reverse_onto
reverse_onto-All [] behind _ h = h
reverse_onto-All (w ∷ s) behind (hw, hs) h = reverse_onto-All s (w ∷ behind) hs (hw, h)

on_head-All :
    (c : ℕ) (ws : List Text) → b'/' == c ≡ false → All HasNoSlash ws → All HasNoSlash (on_head c ws)
unfolding contains
on_head-All c [] e h = (rw e refl, tt)
on_head-All c (w ∷ ws) e (hw, h) = (rw (e, contains) hw, h)

split-All : (path : Text) → All HasNoSlash (split b'/' path)
unfolding split contains
split-All [] = (refl, tt)
split-All (d ∷ path) = elim (Bool-cases (d == b'/')) [
  | inl e ↦ rw e (refl, split-All path)
  | inr e ↦ rw e (on_head-All d (split b'/' path) (ground (arith, e)) (split-All path))
]

-- The test on the text of a joined path reads its first component.
escapes-first :
    (r : List Text)
    → All HasNoSlash r
    → (is_up (or_dot (join (b'/' ∷ []) r))
        || starts_with (or_dot (join (b'/' ∷ []) r)) (b'.' ∷ b'.' ∷ b'/' ∷ []))
      ≡ first_up r
unfolding join starts_with strip_prefix contains text_beq
escapes-first [] _ = refl
escapes-first ([] ∷ []) h = refl
escapes-first ((a ∷ []) ∷ []) (h, _) = ground arith
escapes-first ((a ∷ b ∷ []) ∷ []) (h, _) = ground arith
escapes-first ((a ∷ b ∷ c ∷ w) ∷ []) (h, _) = ground (arith, h)
escapes-first ([] ∷ v ∷ r) h = ground arith
escapes-first ((a ∷ []) ∷ v ∷ r) (h, _) = ground arith
escapes-first ((a ∷ b ∷ []) ∷ v ∷ r) (h, _) = ground arith
escapes-first ((a ∷ b ∷ c ∷ w) ∷ v ∷ r) (h, _) = ground (arith, h)

pub escapes-stays : (path : Text) → escapes path ≡ not (stays 0 (split b'/' path))
unfolding escapes normpath bottom_up
escapes-stays path =
    escapes-first r all_free ∙ same (push_all comps []) ∙ push_all-stays comps [] tt
  where
    comps : List Text
    comps = split b'/' path

    r : List Text
    r = reverse_onto (push_all comps []) []

    all_free : All HasNoSlash r
    all_free =
        reverse_onto-All (push_all comps []) [] (push_all-All comps [] (split-All path) tt) tt

    same : (s : List Text) → first_up (reverse_onto s []) ≡ bottom_up s
    same [] = refl
    same (w ∷ s) = first_up-reverse_onto w s []
