-- ===== src/Manifest/Cycle/Explores.antt =====
-- What one call of the search does: it finds a cycle, or shows that every walk from its name ends.
use winter_service_tmux.Prelude.{
  ℕ, zero, suc, ◌≤◌, ◌<◌, ◌≡◌, refl, sym, ap, ◌∙◌, ◌⊎◌, inl, inr, List, [], ◌∷◌, ◌++◌, arith,
  nat_eq, Text, text_eq, In, All, All-In, All-at, In-snoc, In-last, In-append,
}
use winter_service_tmux.Prelude.Dict.{keys}
use winter_service_tmux.Manifest.Cycle.{
  Graph, white, gray, black, Search, Verdict, clear, cycle, out_of_fuel, neighbors, pop, enter,
  leave, each_neighbor, dfs,
}
use winter_service_tmux.Manifest.Cycle.Colors.{
  color_of, whites, pop-append, Color-cases, whites-insert, whites-enter, neighbors-In,
  color-insert,
}
use winter_service_tmux.Manifest.Cycle.Walks.{
  IsSafe, safe, IsChain, IsCycle, IsChain-append, from_first-IsCycle,
}

module _ (g : Graph) where
  abbrev pub left : Search → ℕ
  left s = whites (keys g) s.color

  pub record Inv (s : Search) : Type 0 where
    pub open_names : (n : Text) → color_of n s ≡ gray → In n s.stack
    pub closed_names : (n : Text) → color_of n s ≡ black → IsSafe g n

  pub record Fine (s s' : Search) : Type 0 where
    pub same : s'.stack ≡ s.stack
    pub inv : Inv s'
    pub fewer : left s' ≤ left s

  abbrev pub Answer : Type 0 → Search → Verdict × Search → Type 0
  Answer Goal s (clear, s') = Fine s s' × Goal
  Answer Goal s (cycle l, s') = IsCycle g l
  Answer Goal s (out_of_fuel, s') = ⊥

  pub Answer-cases :
      (Goal : Type 0) (s : Search) (r : Verdict × Search)
      → Answer Goal s r
      → ((r.0 ≡ clear) × Fine s (r.1) × Goal) ⊎ ((l : List Text) × (r.0 ≡ cycle l) × IsCycle g l)
  Answer-cases G s (clear, s') (f, h) = inl (refl, f, h)
  Answer-cases G s (cycle l, s') h = inr (l, refl, h)
  Answer-cases G s (out_of_fuel, s') h = elim h [ ]

  -- what a call is for, with `fuel` more than the white names
  abbrev pub Explores : ℕ → (Text → Search → Verdict × Search) → Type 0
  Explores fuel f =
      (n : Text) (s : Search)
      → Inv s
      → IsChain g (s.stack ++ (n ∷ []))
      → color_of n s ≡ white
      → left s < fuel
      → Answer (IsSafe g n) s (f n s)

  pub Fine-refl : (s : Search) → Inv s → Fine s s
  Fine-refl s h = record { same = refl; inv = h; fewer = omega arith }

  Answer-after :
      {G H : Type 0} (s s1 : Search) (r : Verdict × Search)
      → Fine s s1
      → (G → H)
      → Answer G s1 r
      → Answer H s r
  Answer-after s s1 (clear, s2) first to_h (f, h) = (
    record { same = f.same ∙ first.same; inv = f.inv; fewer = omega (arith, f.fewer, first.fewer) },
    to_h h,
  )
  Answer-after s s1 (cycle l, s2) first to_h h = h
  Answer-after s s1 (out_of_fuel, s2) first to_h h = elim h [ ]

  each_neighbor-Explores :
      (fuel : ℕ) (f : Text → Search → Verdict × Search)
      → Explores fuel f
      → (node : Text) (st ns : List Text) (s : Search) → s.stack ≡ st ++ (node ∷ [])
      → IsChain g (st ++ (node ∷ []))
      → All (λ n. In n (neighbors g node)) ns
      → Inv s
      → left s < fuel
      → Answer (All (IsSafe g) ns) s (each_neighbor f ns s)
  unfolding each_neighbor
  each_neighbor-Explores fuel f ex node st [] s e ch sub inv h = (Fine-refl s inv, tt)
  each_neighbor-Explores fuel f ex node st (n ∷ ns) s e ch (edge, sub) inv h =
      elim (Color-cases (color_of n s)) [
        | inl w ↦ elim (Answer-cases (IsSafe g n) s (f n s) (ex n s inv chain w h)) [
          | inl (r, fine, ok) ↦
              let s' = (f n s).1 in
              rw (w, r, each_neighbor)
                (Answer-after {G = All (IsSafe g) ns} {H = All (IsSafe g) (n ∷ ns)} s s'
                  (each_neighbor f ns s') fine (λ oks. (ok, oks))
                  (each_neighbor-Explores fuel f ex node st ns s' (fine.same ∙ e) ch sub fine.inv
                    (omega (arith, fine.fewer, h))))
          | inr (l, r, found) ↦ rw (w, r, each_neighbor) found
        ]
        | inr (inl o) ↦
            rw (o, each_neighbor) (from_first-IsCycle g n s.stack (inv.open_names n o) chain)
        | inr (inr c) ↦
            rw (c, each_neighbor)
              (Answer-after {G = All (IsSafe g) ns} {H = All (IsSafe g) (n ∷ ns)} s s
                (each_neighbor f ns s) (Fine-refl s inv) (λ oks. (inv.closed_names n c, oks))
                (each_neighbor-Explores fuel f ex node st ns s e ch sub inv h))
      ]
    where
      chain : IsChain g (s.stack ++ (n ∷ []))
      chain = rw e (IsChain-append g st node n ch edge)

  Inv-enter : (n : Text) (s : Search) → Inv s → Inv (enter n s)
  Inv-enter n s h = record {
    open_names = λ m e. elim (color-insert n m gray gray s.color e) [
      | inl (same, _) ↦ rw (sym same) (In-last n s.stack)
      | inr (_, old) ↦ In-append m s.stack (n ∷ []) (h.open_names m old)
    ];
    closed_names = λ m e. elim (color-insert n m gray black s.color e) [
      | inl (_, bad) ↦ absurd (cc bad)
      | inr (_, old) ↦ h.closed_names m old
    ];
  }

  Inv-leave :
      (n : Text) (s s' : Search)
      → s'.stack ≡ s.stack ++ (n ∷ [])
      → Inv s'
      → IsSafe g n
      → Inv (leave n s')
  Inv-leave n s s' same h ok = record {
    open_names = λ m e. elim (color-insert n m black gray s'.color e) [
      | inl (_, bad) ↦ absurd (cc bad)
      | inr (other, old) ↦
          let i : In m (s.stack ++ (n ∷ [])) = rw (sym same) (h.open_names m old) in
          rw (same, pop-append s.stack n)
            (elim (In-snoc m n s.stack i) [ inl before ↦ before | inr eq ↦ absurd (other eq) ])
    ];
    closed_names = λ m e. elim (color-insert n m black black s'.color e) [
      | inl (eq, _) ↦ rw (sym eq) ok
      | inr (_, old) ↦ h.closed_names m old
    ];
  }

  Fine-leave : (n : Text) (s s' : Search) → Fine (enter n s) s' → IsSafe g n → Fine s (leave n s')
  Fine-leave n s s' fine ok = record {
    same = ap pop fine.same ∙ pop-append s.stack n;
    inv = Inv-leave n s s' fine.same fine.inv ok;
    fewer = omega (
      arith,
      fine.fewer,
      whites-insert n black (keys g) s'.color refl,
      whites-insert n gray (keys g) s.color refl,
    );
  }

  -- the neighbours of a name that is entered; one without neighbours needs no fuel
  neighbors-Explores :
      (fuel : ℕ) (f : Text → Search → Verdict × Search)
      → Explores fuel f
      → (n : Text) (s : Search) → Inv s
      → IsChain g (s.stack ++ (n ∷ []))
      → color_of n s ≡ white
      → left s < suc fuel
      → Answer
          (All (IsSafe g) (neighbors g n))
          (enter n s)
          (each_neighbor f (neighbors g n) (enter n s))
  unfolding each_neighbor
  neighbors-Explores fuel f ex n s inv chain w h = elim (neighbors-In n g) [
    | inl e ↦ rw e (Fine-refl (enter n s) (Inv-enter n s inv), tt)
    | inr i ↦
        each_neighbor-Explores fuel f ex n s.stack (neighbors g n) (enter n s) refl chain
          (All-In (neighbors g n)) (Inv-enter n s inv)
          (omega (arith, h, whites-enter n (keys g) s.color i w))
  ]

  pub dfs-Explores : (fuel : ℕ) → Explores fuel (dfs g fuel)
  unfolding dfs
  dfs-Explores zero n s inv chain w h = omega (arith, h)
  dfs-Explores (suc fuel) n s inv chain w h =
      let r = each_neighbor (dfs g fuel) (neighbors g n) (enter n s) in
      elim (Answer-cases (All (IsSafe g) (neighbors g n)) (enter n s) r
        (neighbors-Explores fuel (dfs g fuel) (dfs-Explores fuel) n s inv chain w h)) [
          | inl (e, fine, oks) ↦
              let ok = safe (All-at (IsSafe g) (neighbors g n) oks) in
              rw (e, dfs) (Fine-leave n s (r.1) fine ok, ok)
          | inr (l, e, found) ↦ rw (e, dfs) found
        ]
