-- ===== src/Manifest/Validator/Targets.antt =====
-- What a scope is sure of when the check of duplicate targets reports nothing.
use winter_service_tmux.Prelude.{
  ◌+◌, ◌≤◌, ◌≡◌, refl, sym, subst, ◌↔◌, inl, inr, List, [], ◌∷◌, ◌++◌, map, arith, if◌then◌else◌,
  Bool-cases, Eq, ◌==◌, ==_iff, nat_eq, Text, text_eq, length, length-append, All,
}
use winter_service_tmux.Prelude.{
  All-map, count, count-head, Distinct-count, count-Distinct, Distinct, nil_of_append, pair_eq,
}
use winter_service_tmux.Prelude.Int.{ℤ, int_eq}
use winter_service_tmux.Prelude.Dict.{Dict, insert, get_or, get_or-insert}
use winter_service_tmux.Manifest.Model.{Service}
use winter_service_tmux.Manifest.Violation.{Label}
use winter_service_tmux.Manifest.Validator.Base.{for_each}
use winter_service_tmux.Manifest.Validator.Checks.{
  target_key, target_names, shared, check_duplicate_targets,
}

module _ {K : Type 0} ⦃eq : Eq K⦄ where
  abbrev add : K → Text → Dict K (List Text) → Dict K (List Text)
  add key name d = insert key (get_or key [] d ++ (name ∷ [])) d

  length-add :
      (k key : K) (name : Text) (d : Dict K (List Text))
      → length (get_or k [] (add key name d)) ≡ (if key == k then 1 else 0) + length (get_or k [] d)
  length-add k key name d = elim (Bool-cases (key == k)) [
    | inl e ↦
        rw (get_or-insert key k (get_or key [] d ++ (name ∷ [])) [] d, e, (==_iff key k).0 e)
          (omega (arith, length-append (get_or k [] d) (name ∷ [])))
    | inr e ↦ rw (get_or-insert key k (get_or key [] d ++ (name ∷ [])) [] d, e) (omega arith)
  ]

  -- each entry, with the keys still to come, has one name at most
  abbrev HasRoom : List K → Dict K (List Text) → Type 0
  HasRoom ks = All (λ p. length (p.1) + count (p.0) ks ≤ 1)

  HasRoom-get :
      (k : K) (ks : List K) (d : Dict K (List Text))
      → count k ks ≤ 1
      → HasRoom ks d
      → length (get_or k [] d) + count k ks ≤ 1
  unfolding get_or
  HasRoom-get k ks [] h _ = omega (arith, h)
  HasRoom-get k ks ((j, ns) ∷ d) h (here, room) = elim (Bool-cases (j == k)) [
    | inl e ↦ rw (e, get_or) (subst (λ x. length ns + count x ks ≤ 1) ((==_iff j k).0 e) here)
    | inr e ↦ rw (e, get_or) (HasRoom-get k ks d h room)
  ]

  HasRoom-insert :
      (key : K) (ns : List Text) (ks : List K) (d : Dict K (List Text))
      → length ns + count key ks ≤ 1
      → HasRoom (key ∷ ks) d
      → HasRoom ks (insert key ns d)
  unfolding insert count
  HasRoom-insert key ns ks [] h _ = (h, tt)
  HasRoom-insert key ns ks ((j, ms) ∷ d) h (here, room) = elim (Bool-cases (j == key)) [
    | inl e ↦
        rw (e, insert)
          (
            subst (λ x. length ns + count x ks ≤ 1) (sym ((==_iff j key).0 e)) h,
            All-map (λ p q. omega (arith, q)) d room,
          )
    | inr e ↦ rw (e, insert) (omega (arith, here), HasRoom-insert key ns ks d h room)
  ]

target_names-count :
    (k : ℤ × ℤ) (services : List Service) (d : Dict (ℤ × ℤ) (List Text))
    → length (get_or k [] (target_names services d))
      ≡ length (get_or k [] d) + count k (map target_key services)
unfolding target_names count
target_names-count k [] d = omega arith
target_names-count k (svc ∷ services) d = omega (
  arith,
  target_names-count k services (add (target_key svc) svc.name d),
  length-add k (target_key svc) svc.name d,
)

target_names-HasRoom :
    (services : List Service) (d : Dict (ℤ × ℤ) (List Text))
    → Distinct (map target_key services)
    → HasRoom (map target_key services) d
    → HasRoom [] (target_names services d)
unfolding target_names count
target_names-HasRoom [] d h room = room
target_names-HasRoom (svc ∷ services) d (out, h) room =
    let key = target_key svc in
    let ks = map target_key services in
    let names = get_or key [] d ++ (svc.name ∷ []) in
    target_names-HasRoom services (insert key names d) h (
      HasRoom-insert key names ks d
        (omega (
          arith,
          length-append (get_or key [] d) (svc.name ∷ []),
          count-head key ks,
          HasRoom-get key (key ∷ ks) d (count-Distinct key (key ∷ ks) (out, h)) room,
        ))
        room)

module _ (label : Label) where
  shared-short : (p : (ℤ × ℤ) × List Text) → (shared label p ≡ []) ↔ (length (p.1) ≤ 1)
  shared-short ((w, q), ns) = ground arith

  length_of_shared :
      (d : Dict (ℤ × ℤ) (List Text)) (k : ℤ × ℤ)
      → for_each (shared label) d ≡ []
      → length (get_or k [] d) ≤ 1
  unfolding for_each get_or
  length_of_shared [] k h = omega arith
  length_of_shared ((j, ns) ∷ d) k h =
      let (h0, h1) = nil_of_append (shared label (j, ns)) (for_each (shared label) d) h in
      elim (Bool-cases (j == k)) [
        | inl e ↦ rw (e, get_or) ((shared-short (j, ns)).0 h0)
        | inr e ↦ rw (e, get_or) (length_of_shared d k h1)
      ]

  shared_of_room : (d : Dict (ℤ × ℤ) (List Text)) → HasRoom [] d → for_each (shared label) d ≡ []
  unfolding for_each count
  shared_of_room [] h = refl
  shared_of_room (p ∷ d) (here, room) =
      rw ((shared-short p).1 (omega (arith, here)), shared_of_room d room) refl

  -- The check of a scope's targets reports nothing exactly when no two services of the scope have
  -- the same window and pane.
  pub check_duplicate_targets-Distinct :
      (services : List Service)
      → (check_duplicate_targets label services ≡ []) ↔ Distinct (map target_key services)
  unfolding check_duplicate_targets get_or
  check_duplicate_targets-Distinct services = (
    λ h. Distinct-count (map target_key services) (λ k.
        omega (
          arith,
          target_names-count k services [],
          length_of_shared (target_names services []) k h,
        )),
    λ h. shared_of_room (target_names services []) (target_names-HasRoom services [] h tt),
  )
