-- ===== src/Orchestrator/Order/LocalDeps.antt =====
-- The graph of the launch order: which names a service waits for.
use winter_service_tmux.Prelude.{
  ◌≡◌, refl, sym, ap, ◌∙◌, subst, ◌≢◌, inl, inr, Bool, false, not, ◌||◌, none, some, List, [], ◌∷◌,
  ◌++◌, append_assoc, append-nil, arith, if◌then◌else◌, Bool-cases, Option-cases, ◌==◌, ==_iff,
  ==_refl, nat_eq, Text, text_eq, contains,
}
use winter_service_tmux.Prelude.{In, In-prepend, Distinct, contains-In}
use winter_service_tmux.Prelude.Dict.{keys, insert, get_or-insert}
use winter_service_tmux.Manifest.Model.{Service}
use winter_service_tmux.Orchestrator.Context.{names_of}
use winter_service_tmux.Orchestrator.Order.{local_dep_name, local_deps_of, local_deps}
use winter_service_tmux.Orchestrator.Order.Release.{Deps, deps_at}

-- A pattern among `ps` stands for the local name `v`.
abbrev pub Names : Text → List Text → Text → Type 0
Names scope ps v = (p : Text) × In p ps × (local_dep_name p scope ≡ some v)

module _ (scope : Text) (names : List Text) (own : Text) where
  abbrev skips : Text → Bool
  skips w = w == own || not (contains w names)

  rest-foreign :
      (q : Text) (ps : List Text)
      → local_dep_name q scope ≡ none
      → local_deps_of scope names own (q ∷ ps) ≡ local_deps_of scope names own ps
  unfolding local_deps_of local_dep_name
  rest-foreign q ps e = rw (e, local_deps_of) refl

  rest-local :
      (q w : Text) (ps : List Text)
      → local_dep_name q scope ≡ some w
      → local_deps_of scope names own (q ∷ ps) ≡ (
          if skips w
          then local_deps_of scope names own ps
          else w ∷ local_deps_of scope names own ps)
  unfolding local_deps_of local_dep_name
  rest-local q w ps e = rw (e, local_deps_of) refl

  rest-nil : local_deps_of scope names own [] ≡ []
  unfolding local_deps_of
  rest-nil = refl

  pub local_deps_of-Names :
      (ps : List Text) (v : Text)
      → In v (local_deps_of scope names own ps)
      → Names scope ps v × (own ≢ v) × In v names
  local_deps_of-Names [] v i = absurd (subst (In v) rest-nil i)
  local_deps_of-Names (q ∷ ps) v i = elim (Option-cases (local_dep_name q scope)) [
    | inl e ↦ later (local_deps_of-Names ps v (subst (In v) (rest-foreign q ps e) i))
    | inr (w, e) ↦
        let j = subst (In v) (rest-local q w ps e) i in
        elim (Bool-cases (skips w)) [
          | inl skipped ↦ later (local_deps_of-Names ps v (rw skipped at j))
          | inr kept ↦
              let k : In v (w ∷ local_deps_of scope names own ps) = rw kept at j in
              elim k [
                | inl same ↦
                    subst (λ x. Names scope (q ∷ ps) x × (own ≢ x) × In x names) same
                      (
                        (q, inl refl, e),
                        ground (arith, kept, ==_iff w own),
                        (contains-In w names).0 (ground (arith, kept)),
                      )
                | inr l ↦ later (local_deps_of-Names ps v l)
              ]
        ]
  ]
    where
      later :
          Names scope ps v × (own ≢ v) × In v names
          → Names scope (q ∷ ps) v × (own ≢ v) × In v names
      later ((p, k, e), other, inside) = ((p, inr k, e), other, inside)

  pub In-local_deps_of :
      (ps : List Text) (v : Text)
      → Names scope ps v
      → own ≢ v
      → In v names
      → In v (local_deps_of scope names own ps)
  In-local_deps_of [] v (p, i, e) other inside = elim i [ ]
  In-local_deps_of (q ∷ ps) v (p, inl same, e) other inside =
      let here : local_dep_name q scope ≡ some v = rw same e in
      let kept : skips v ≡ false =
        ground (arith, ==_iff v own, (contains-In v names).1 inside, other) in
      rw (rest-local q v ps here, kept) (inl refl)
  In-local_deps_of (q ∷ ps) v (p, inr i, e) other inside =
      let later = In-local_deps_of ps v (p, i, e) other inside in
      elim (Option-cases (local_dep_name q scope)) [
        | inl f ↦ rw (rest-foreign q ps f) later
        | inr (w, f) ↦ elim (Bool-cases (skips w)) [
          | inl skipped ↦ rw (rest-local q w ps f, skipped) later
          | inr kept ↦ rw (rest-local q w ps f, kept) (inr later)
        ]
      ]

keys-insert_new :
    (k : Text) (ds : List Text) (g : Deps)
    → ¬ In k (keys g)
    → keys (insert k ds g) ≡ keys g ++ (k ∷ [])
unfolding keys insert
keys-insert_new k ds [] h = refl
keys-insert_new k ds ((j, es) ∷ g) h = elim (Bool-cases (j == k)) [
  | inl e ↦ absurd (h (inl ((==_iff j k).0 e)))
  | inr e ↦ rw (e, keys) (ap (λ t. j ∷ t) (keys-insert_new k ds g (λ i. h (inr i))))
]

Distinct-middle :
    (xs : List Text) (k : Text) (ys : List Text) → Distinct (xs ++ (k ∷ ys)) → ¬ In k xs
Distinct-middle [] k ys d i = i
Distinct-middle (x ∷ xs) k ys (out, d) (inl e) = out (rw e (In-prepend k xs (k ∷ ys) (inl refl)))
Distinct-middle (x ∷ xs) k ys (out, d) (inr i) = Distinct-middle xs k ys d i

module _ (scope : Text) (names : List Text) where
  pub keys-local_deps :
      (services : List Service) (g : Deps)
      → Distinct (keys g ++ names_of services)
      → keys (local_deps scope names services g) ≡ keys g ++ names_of services
  unfolding local_deps names_of
  keys-local_deps [] g d = sym (append-nil (keys g))
  keys-local_deps (svc ∷ services) g d =
      let grown =
        keys-insert_new svc.name own g (Distinct-middle (keys g) svc.name (names_of services) d) in
      keys-local_deps services (insert svc.name own g)
        (rw (grown, append_assoc (keys g) (svc.name ∷ []) (names_of services)) d)
      ∙ rw (grown) (append_assoc (keys g) (svc.name ∷ []) (names_of services))
    where
      own : List Text
      own = local_deps_of scope names svc.name svc.depends_on

  local_deps-other :
      (services : List Service) (g : Deps) (n : Text)
      → ¬ In n (names_of services)
      → deps_at n (local_deps scope names services g) ≡ deps_at n g
  unfolding local_deps names_of
  local_deps-other [] g n h = refl
  local_deps-other (svc ∷ services) g n h =
      local_deps-other services (insert svc.name own g) n (λ i. h (inr i))
      ∙ ground (arith, get_or-insert svc.name n own [] g, ==_iff svc.name n, fresh)
    where
      fresh : svc.name ≢ n
      fresh e = h (inl e)

      own : List Text
      own = local_deps_of scope names svc.name svc.depends_on

  pub deps_at-local_deps :
      (services : List Service) (g : Deps)
      → Distinct (names_of services)
      → (svc : Service) → In svc services
      → deps_at svc.name (local_deps scope names services g)
        ≡ local_deps_of scope names svc.name svc.depends_on
  unfolding local_deps names_of
  deps_at-local_deps [] g d svc i = elim i [ ]
  deps_at-local_deps (s ∷ services) g (out, d) svc (inl e) = rw (sym e) (
      local_deps-other services (insert s.name own g) s.name out
      ∙ rw (get_or-insert s.name s.name own [] g, ==_refl s.name) refl)
    where
      own : List Text
      own = local_deps_of scope names s.name s.depends_on
  deps_at-local_deps (s ∷ services) g (out, d) svc (inr i) =
      deps_at-local_deps services (insert s.name (local_deps_of scope names s.name s.depends_on) g)
        d svc i
