-- ===== src/Manifest/Cycle/Decides.antt =====
-- The search finds a cycle where there is one, and what it finds is one.
use winter_service_tmux.Prelude.{
  suc, ◌≡◌, refl, ◌∙◌, subst, ◌⊎◌, inl, inr, List, [], ◌∷◌, arith, nat_eq, Text, text_eq, In,
  length, All, All-at,
}
use winter_service_tmux.Prelude.Dict.{keys}
use winter_service_tmux.Manifest.Cycle.{
  Graph, Search, Verdict, clear, cycle, dfs, each_root, all_white, find_depends_on_cycle,
}
use winter_service_tmux.Manifest.Cycle.Colors.{
  color_of, Color-cases, neighbors-In, whites-le-length, length-keys, get_or-all_white,
}
use winter_service_tmux.Manifest.Cycle.Explores.{Inv, Answer-cases, dfs-Explores}
use winter_service_tmux.Manifest.Cycle.Walks.{Edge, IsSafe, safe, no_return, IsCycle, Walk}

module _ (g : Graph) where
  abbrev Answered : List Text → Verdict → Type 0
  Answered ns v =
      ((l : List Text) × (v ≡ cycle l) × IsCycle g l) ⊎ ((v ≡ clear) × All (IsSafe g) ns)

  Answered-cons :
      (n : Text) (ns : List Text) (v : Verdict) → IsSafe g n → Answered ns v → Answered (n ∷ ns) v
  Answered-cons n ns v ok (inl found) = inl found
  Answered-cons n ns v ok (inr (e, oks)) = inr (e, (ok, oks))

  -- the outer loop starts each search with an empty stack
  each_root-lem :
      (ns : List Text) (s : Search)
      → s.stack ≡ []
      → Inv g s
      → Answered ns (each_root g (suc (length g)) ns s)
  unfolding each_root
  each_root-lem [] s e inv = inr (refl, tt)
  each_root-lem (n ∷ ns) s e inv = elim (Color-cases (color_of n s)) [
    | inl w ↦
        let r = dfs g (suc (length g)) n s in
        elim (Answer-cases g (IsSafe g n) s r (
          dfs-Explores g (suc (length g)) n s inv (rw e tt) w
            (omega (arith, whites-le-length (keys g) s.color, length-keys g)))) [
              | inl (a, fine, ok) ↦
                  rw (w, a, each_root)
                    (Answered-cons n ns (each_root g (suc (length g)) ns (r.1)) ok
                      (each_root-lem ns (r.1) (fine.same ∙ e) fine.inv))
              | inr (l, a, found) ↦ rw (w, a, each_root) (inl (l, refl, found))
            ]
    | inr (inl o) ↦ absurd (subst (In n) e (inv.open_names n o))
    | inr (inr c) ↦
        rw (c, each_root)
          (Answered-cons n ns (each_root g (suc (length g)) ns s) (inv.closed_names n c)
            (each_root-lem ns s e inv))
  ]

  -- The search finds a cycle along the edges, or it finds none and every walk ends.
  pub find_depends_on_cycle-IsSafe :
      ((l : List Text) × (find_depends_on_cycle g ≡ cycle l) × IsCycle g l)
      ⊎ ((find_depends_on_cycle g ≡ clear) × ((n : Text) → IsSafe g n))
  unfolding find_depends_on_cycle
  find_depends_on_cycle-IsSafe = elim (each_root-lem (keys g) start refl start_inv) [
    | inl found ↦ inl found
    | inr (e, oks) ↦ inr (
      e,
      λ n. elim (neighbors-In n g) [
        | inl none_next ↦ safe (λ v i. absurd (subst (In v) none_next i))
        | inr i ↦ All-at (IsSafe g) (keys g) oks n i
      ],
    )
  ]
    where
      start : Search
      start = record { color = all_white (keys g); stack = [] }

      start_inv : Inv g start
      start_inv = record {
        open_names = λ n e. absurd (cc (get_or-all_white n (keys g), e));
        closed_names = λ n e. absurd (cc (get_or-all_white n (keys g), e));
      }

  -- The search of a dependency graph returns a sequence of names in which each depends on the
  -- next and the last is the first, or it returns `None` and no name depends on itself along any
  -- walk. It never runs out of fuel.
  pub find_depends_on_cycle-decides :
      ((l : List Text) × (find_depends_on_cycle g ≡ cycle l) × IsCycle g l)
      ⊎ ((find_depends_on_cycle g ≡ clear) × ((n : Text) → ¬ Walk (Edge g) n n))
  find_depends_on_cycle-decides = elim find_depends_on_cycle-IsSafe [
    | inl found ↦ inl found
    | inr (e, ok) ↦ inr (e, λ n. no_return g (ok n))
  ]
