-- ===== src/Orchestrator/Order/ByName.antt =====
-- The services that the launch order picks by their names.
use winter_service_tmux.Prelude.{
  ◌≡◌, refl, ◌∙◌, subst, inl, inr, not, some, List, [], ◌∷◌, Bool-cases, ◌==◌, ==_iff, nat_eq, Text,
  text_eq, contains, filter, All,
}
use winter_service_tmux.Prelude.{In, contains-In}
use winter_service_tmux.Prelude.Int.{int_eq}
use winter_service_tmux.Prelude.Dict.{Dict, lookup, insert, lookup-insert}
use winter_service_tmux.Manifest.Model.{Service}
use winter_service_tmux.Orchestrator.Context.{names_of}
use winter_service_tmux.Orchestrator.Order.{by_name, pick}

pub named :
    (services : List Service) (n : Text)
    → In n (names_of services)
    → (svc : Service) × In svc services × (svc.name ≡ n)
unfolding names_of
named [] n i = elim i [ ]
named (s ∷ services) n (inl e) = (s, inl refl, e)
named (s ∷ services) n (inr i) = let (svc, j, e) = named services n i in (svc, inr j, e)

-- the services that `by_name` holds are found under their names
by_name-named :
    (services : List Service) (d : Dict Text Service)
    → ((n : Text) (svc : Service) → lookup n d ≡ some svc → svc.name ≡ n)
    → (n : Text) (svc : Service) → lookup n (by_name services d) ≡ some svc
    → svc.name ≡ n
unfolding by_name
by_name-named [] d h n svc e = h n svc e
by_name-named (s ∷ services) d h n svc e = by_name-named services (insert s.name s d) fresh n svc e
  where
    fresh : (m : Text) (t : Service) → lookup m (insert s.name s d) ≡ some t → t.name ≡ m
    fresh m t f = elim (Bool-cases (s.name == m)) [
      | inl same ↦
          let g : some s ≡ some t = rw (lookup-insert s.name m s d, same) at f in
          let eq : s ≡ t = cc g in subst (λ (x : Service). x.name ≡ m) eq ((==_iff s.name m).0 same)
      | inr other ↦ h m t (rw (lookup-insert s.name m s d, other) at f)
    ]

by_name-keeps :
    (services : List Service) (d : Dict Text Service) (n : Text) (svc : Service)
    → lookup n d ≡ some svc
    → (found : Service) × (lookup n (by_name services d) ≡ some found)
unfolding by_name
by_name-keeps [] d n svc e = (svc, e)
by_name-keeps (s ∷ services) d n svc e = elim (Bool-cases (s.name == n)) [
  | inl same ↦
      by_name-keeps services (insert s.name s d) n s (lookup-insert s.name n s d ∙ rw same refl)
  | inr other ↦
      by_name-keeps services (insert s.name s d) n svc (lookup-insert s.name n s d ∙ rw other e)
]

by_name-finds :
    (services : List Service) (d : Dict Text Service) (n : Text)
    → In n (names_of services)
    → (found : Service) × (lookup n (by_name services d) ≡ some found)
unfolding by_name names_of
by_name-finds [] d n i = elim i [ ]
by_name-finds (s ∷ services) d n (inl e) =
    by_name-keeps services (insert s.name s d) n s
      (lookup-insert s.name n s d ∙ rw ((==_iff s.name n).1 e) refl)
by_name-finds (s ∷ services) d n (inr i) = by_name-finds services (insert s.name s d) n i

pub pick-names :
    (services : List Service) (ns : List Text)
    → All (λ n. In n (names_of services)) ns
    → names_of (pick ns (by_name services [])) ≡ ns
unfolding pick names_of lookup
pick-names services [] h = refl
pick-names services (n ∷ ns) (i, h) =
    let (svc, found) = by_name-finds services [] n i in
    let same = by_name-named services [] (λ m t f. absurd (cc f)) n svc found in
    rw (found, pick) (rw (same, pick-names services ns h, names_of) refl)

pub filter-none :
    (o ns : List Text) → All (λ n. In n o) ns → filter (λ name. not (contains name o)) ns ≡ []
unfolding filter
filter-none o [] h = refl
filter-none o (n ∷ ns) (i, h) = rw ((contains-In n o).1 i) (filter-none o ns h)
