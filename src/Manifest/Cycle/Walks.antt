-- ===== src/Manifest/Cycle/Walks.antt =====
-- Walks along the edges of a dependency graph, and the names from which every walk ends.
use winter_service_tmux.Prelude.{
  ◌≡◌, sym, ap, inl, inr, false, List, [], ◌∷◌, ◌++◌, Bool-cases, ◌==◌, ==_iff, nat_eq, Text,
  text_eq, In,
}
use winter_service_tmux.Manifest.Cycle.{Graph, neighbors, from_first}

-- one step of a relation at least
pub data Walk (R : Text → Text → Type 0) : Text → Text → Type 0 where
  one : {u v : Text} → R u v → Walk R u v
  more : {u v w : Text} → R u v → Walk R v w → Walk R u w

pub Walk-map :
    {R S : Text → Text → Type 0} {u v : Text}
    → ((x y : Text) → R x y → S x y)
    → Walk R u v
    → Walk S u v
Walk-map f (one r) = one (f _ _ r)
Walk-map f (more r p) = more (f _ _ r) (Walk-map f p)

-- `u` depends on `v`
abbrev pub Edge : Graph → Text → Text → Type 0
Edge g u v = In v (neighbors g u)

-- Every walk from the name ends.
pub data IsSafe (g : Graph) : Text → Type 0 where
  safe : {u : Text} → ((v : Text) → In v (neighbors g u) → IsSafe g v) → IsSafe g u

-- each name is a neighbour of the one before it
abbrev pub IsChain : Graph → List Text → Type 0
IsChain g [] = Unit
IsChain g (x ∷ []) = Unit
IsChain g (x ∷ y ∷ l) = In y (neighbors g x) × IsChain g (y ∷ l)

-- a chain of one edge at least that ends where it starts
abbrev pub IsCycle : Graph → List Text → Type 0
IsCycle g l = (x : Text) × (p : List Text) × (l ≡ x ∷ (p ++ (x ∷ []))) × IsChain g l

module _ (g : Graph) where
  snoc : {u v w : Text} → Walk (Edge g) u v → Edge g v w → Walk (Edge g) u w
  snoc (one e) h = more e (one h)
  snoc (more e p) h = more e (snoc p h)

  pub no_return : {u : Text} → IsSafe g u → ¬ Walk (Edge g) u u
  no_return (safe next) (one e) = no_return (next _ e) (one e)
  no_return (safe next) (more e p) = no_return (next _ e) (snoc p e)

  pub IsChain-Walk :
      (x y : Text) (p : List Text) → IsChain g (x ∷ (p ++ (y ∷ []))) → Walk (Edge g) x y
  IsChain-Walk x y [] (e, _) = one e
  IsChain-Walk x y (z ∷ p) (e, h) = more e (IsChain-Walk z y p h)

  pub IsChain-tail : (x : Text) (l : List Text) → IsChain g (x ∷ l) → IsChain g l
  IsChain-tail x [] h = tt
  IsChain-tail x (y ∷ l) (_, h) = h

  -- a chain goes on with a neighbour of its last name
  pub IsChain-append :
      (l : List Text) (x y : Text)
      → IsChain g (l ++ (x ∷ []))
      → In y (neighbors g x)
      → IsChain g ((l ++ (x ∷ [])) ++ (y ∷ []))
  IsChain-append [] x y h e = (e, tt)
  IsChain-append (z ∷ []) x y (h, _) e = (h, (e, tt))
  IsChain-append (z ∷ w ∷ l) x y (d, h) e = (d, IsChain-append (w ∷ l) x y h e)

  pub from_first-IsCycle :
      (x : Text) (l : List Text)
      → In x l
      → IsChain g (l ++ (x ∷ []))
      → IsCycle g (from_first x l ++ (x ∷ []))
  unfolding from_first
  from_first-IsCycle x [] here h = elim here [ ]
  from_first-IsCycle x (y ∷ l) here h = elim (Bool-cases (y == x)) [
    | inl e ↦
        let same = (==_iff y x).0 e in
        rw (e, from_first) (y, l, ap (λ z. y ∷ (l ++ (z ∷ []))) (sym same), h)
    | inr e ↦
        rw (e, from_first)
          (from_first-IsCycle x l (later here e) (IsChain-tail y (l ++ (x ∷ [])) h))
  ]
    where
      later : In x (y ∷ l) → y == x ≡ false → In x l
      later (inl p) e = absurd (cc ((==_iff y x).1 p, e))
      later (inr p) e = p
