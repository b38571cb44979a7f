-- ===== src/Orchestrator/Selection.antt =====
-- The services in an order are those given: `_topological_order` of orchestrator_service.py.
use winter_service_tmux.Prelude.{
  ◌≡◌, refl, sym, ◌∙◌, inl, inr, some, List, [], ◌∷◌, arith, Bool-cases, Option-cases, ◌==◌, nat_eq,
  Text, text_eq, all, All,
}
use winter_service_tmux.Prelude.{In, All-In}
use winter_service_tmux.Prelude.Dict.{Dict, lookup, insert, lookup-insert}
use mathlib.Core.Path.{subst}
use winter_service_tmux.Manifest.Model.{Service}
use winter_service_tmux.Orchestrator.Order.{by_name, pick, topological_order, ordered_names}

-- the entries of a dictionary are from the list
abbrev pub AreOf : List Service → Dict Text Service → Type 0
AreOf services d = (name : Text) (svc : Service) → lookup name d ≡ some svc → In svc services

insert-AreOf :
    (services : List Service) (svc : Service) (d : Dict Text Service)
    → In svc services
    → AreOf services d
    → AreOf services (insert (svc.name) svc d)
insert-AreOf services svc d inside h name found e = elim (Bool-cases (svc.name == name)) [
  | inl same ↦
      let e' : some svc ≡ some found =
        sym (rw (lookup-insert (svc.name) name svc d, same) refl) ∙ e in
      let same' : svc ≡ found = ground arith in subst (λ s. In s services) same' inside
  | inr other ↦ h name found (sym (rw (lookup-insert (svc.name) name svc d, other) refl) ∙ e)
]

pub by_name-AreOf :
    (all services : List Service) (d : Dict Text Service)
    → All (λ svc. In svc all) services
    → AreOf all d
    → AreOf all (by_name services d)
unfolding by_name
by_name-AreOf all [] d inside h = h
by_name-AreOf all (svc ∷ services) d (hs, inside) h =
    by_name-AreOf all services (insert (svc.name) svc d) inside (insert-AreOf all svc d hs h)

pick-In :
    (services : List Service) (names : List Text) (d : Dict Text Service)
    → AreOf services d
    → All (λ svc. In svc services) (pick names d)
unfolding pick
pick-In services [] d h = tt
pick-In services (name ∷ names) d h = elim (Option-cases (lookup name d)) [
  | inl e ↦ rw (e, pick) (pick-In services names d h)
  | inr (svc, e) ↦ rw (e, pick) (h name svc e, pick-In services names d h)
]

pub empty-AreOf : (services : List Service) → AreOf services []
unfolding lookup
empty-AreOf services name svc e = ground arith

-- the order is of the services given
pub topological_order-In :
    (services : List Service) (scope : Text)
    → All (λ svc. In svc services) (topological_order services scope)
unfolding topological_order
topological_order-In services scope =
    pick-In services (ordered_names services scope) (by_name services [])
      (by_name-AreOf services services [] (All-In services) (empty-AreOf services))
