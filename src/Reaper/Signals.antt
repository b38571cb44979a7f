-- ===== src/Reaper/Signals.antt =====
-- Which processes get a signal.
use winter_service_tmux.Prelude.{
  ℕ, zero, suc, ◌≡◌, refl, subst, ◌≢◌, ◌⊎◌, inl, inr, false, List, [], ◌∷◌, ◌++◌, if◌then◌else◌,
  Bool-cases, Option-cases, ◌==◌, ==_iff, nat_eq, text_eq, All, All-append,
}
use winter_service_tmux.Prelude.{In, All-map, All-In}
use winter_service_tmux.Reaper.{
  Step, listed, term, kill, slept, Trace, Ended, ended, no_pgrep, unfinished, R, Done, ◌>>=◌, pure,
  make, Pgrep, run_pgrep, collect_each, collect, descendants, collect_roots, signal_all,
  reap_descendants,
}

-- `pgrep` has named `p` as a child of `q`
abbrev pub IsChild : Trace → ℕ → ℕ → Type 0
IsChild tr q p = (children : List ℕ) × In (listed q children) tr × In p children

pub data Descends (tr : Trace) (root : ℕ) : ℕ → Type 0 where
  child : {p : ℕ} → IsChild tr root p → Descends tr root p
  below : {q p : ℕ} → Descends tr root q → IsChild tr q p → Descends tr root p

abbrev pub Later : Trace → Trace → Type 0
Later h h' = (s : Step) → In s h → In s h'

Descends-Later : (h h' : Trace) (root p : ℕ) → Later h h' → Descends h root p → Descends h' root p
Descends-Later h h' root p l (child (cs, i, j)) = child (cs, l _ i, j)
Descends-Later h h' root p l (below d (cs, i, j)) =
    below (Descends-Later h h' root _ l d) (cs, l _ i, j)

-- a process below one of the roots that is not this root
abbrev pub Explained : List ℕ → Trace → ℕ → Type 0
Explained roots h p = (root : ℕ) × In root roots × Descends h root p × (p ≢ root)

abbrev pub Fine : List ℕ → Trace → Step → Type 0
Fine roots h (listed _ _) = Unit
Fine roots h (term p) = Explained roots h p
Fine roots h (kill p) = Explained roots h p
Fine roots h slept = Unit

-- each signal is explained by the steps made before it
abbrev pub AreExplained : List ℕ → Trace → Type 0
AreExplained roots [] = Unit
AreExplained roots (s ∷ h) = Fine roots h s × AreExplained roots h

module _ (roots : List ℕ) where
  Explained-Later : (h h' : Trace) (p : ℕ) → Later h h' → Explained roots h p → Explained roots h' p
  Explained-Later h h' p l (root, i, d, ne) = (root, i, Descends-Later h h' root p l d, ne)

  All-Later :
      (h h' : Trace) (ps : List ℕ)
      → Later h h'
      → All (Explained roots h) ps
      → All (Explained roots h') ps
  All-Later h h' ps l a = All-map (λ p. Explained-Later h h' p l) ps a

  abbrev Clean : Trace → Type 0
  Clean h = AreExplained roots h

  abbrev Then : {A : Type 0} → (Trace → A → Type 0) → Ended A → Trace → Type 0
  Then P (ended a) h = P h a
  Then P no_pgrep h = Unit
  Then P unfinished h = Unit

  -- clean from a clean trace on, with a property of the result
  abbrev Safe : {A : Type 0} → (Trace → A → Type 0) → R A → Trace → Type 0
  Safe P m h = Clean h → Clean ((m h).1) × Later h ((m h).1) × Then P ((m h).0) ((m h).1)

  Safe-bind :
      {A B : Type 0} (P : Trace → A → Type 0) (Q : Trace → B → Type 0) (m : R A) (f : A → R B)
      (h : Trace)
      → Safe P m h
      → ((a : A) (h' : Trace) → Later h h' → P h' a → Safe Q (f a) h')
      → Safe Q (m >>= f) h
  Safe-bind {A = A} {B = B} P Q m f h s k c =
      let (c', l, p) = s c in after ((m h).0) ((m h).1) c' l p k
    where
      after :
          (r : Ended A) (h' : Trace)
          → Clean h'
          → Later h h'
          → Then P r h'
          → ((a : A) (h' : Trace) → Later h h' → P h' a → Safe Q (f a) h')
          → let out : Ended B × Trace = elim r [
            | ended a ↦ f a h'
            | no_pgrep ↦ (no_pgrep, h')
            | unfinished ↦ (unfinished, h')
          ] in
            Clean (out.1) × Later h (out.1) × Then Q (out.0) (out.1)
      after (ended a) h' c l p k = let (c', l', q) = k a h' l p c in (c', (λ s i. l' s (l s i)), q)
      after no_pgrep h' c l p k = (c, l, tt)
      after unfinished h' c l p k = (c, l, tt)

  Safe-pure : {A : Type 0} (P : Trace → A → Type 0) (a : A) (h : Trace) → P h a → Safe P (pure a) h
  Safe-pure P a h p c = (c, (λ s i. i), p)

  module _ (w : Pgrep) where
    run_pgrep-Safe :
        (pid : ℕ) (h : Trace) → Safe (λ h' cs. In (listed pid cs) h') (run_pgrep w pid) h
    unfolding run_pgrep
    run_pgrep-Safe pid h c = elim (Option-cases (w h pid)) [
      | inl e ↦ rw (e, run_pgrep) (c, (λ s i. i), tt)
      | inr (cs, e) ↦ rw (e, run_pgrep) ((tt, c), (λ s i. inr i), inl refl)
    ]

    -- where a collection from the root may stand
    abbrev IsAt : ℕ → Trace → ℕ → Type 0
    IsAt root h pid = (pid ≡ root) ⊎ Descends h root pid

    abbrev Found : Trace → List ℕ → Type 0
    Found h out = All (Explained roots h) out

    IsAt-child :
        (root pid : ℕ) (children : List ℕ) (h : Trace)
        → IsAt root h pid
        → In (listed pid children) h
        → All (IsAt root h) children
    IsAt-child root pid children h (inl e) i =
        All-map (λ p j. inr (child (subst (λ q. IsChild h q p) e (children, i, j)))) children
          (All-In children)
    IsAt-child root pid children h (inr d) i =
        All-map (λ p j. inr (below d (children, i, j))) children (All-In children)

    IsAt-Later : (root : ℕ) (h h' : Trace) (p : ℕ) → Later h h' → IsAt root h p → IsAt root h' p
    IsAt-Later root h h' p l (inl e) = inl e
    IsAt-Later root h h' p l (inr d) = inr (Descends-Later h h' root p l d)

    collect_each-Safe :
        (root : ℕ) (step : ℕ → List ℕ → R (List ℕ))
        → ((pid : ℕ) (out : List ℕ) (h : Trace)
            → IsAt root h pid
            → Found h out
            → Safe Found (step pid out) h)
        → (children out : List ℕ) (h : Trace) → All (IsAt root h) children
        → Found h out
        → Safe Found (collect_each step children out) h
    unfolding collect_each
    collect_each-Safe root step safe [] out h a f = Safe-pure Found out h f
    collect_each-Safe root step safe (c ∷ cs) out h (at, a) f =
        Safe-bind Found Found (step c out) (collect_each step cs) h (safe c out h at f)
          (λ more h' l f'.
            collect_each-Safe root step safe cs more h'
              (All-map (λ p. IsAt-Later root h h' p l) cs a) f')

    collected :
        (root pid : ℕ) (more : List ℕ) (h : Trace)
        → In root roots
        → IsAt root h pid
        → Found h more
        → Found h (if pid == root then more else more ++ (pid ∷ []))
    collected root pid more h i at f = elim (Bool-cases (pid == root)) [
      | inl e ↦ rw e f
      | inr e ↦ rw e (All-append (Explained roots h) more (pid ∷ []) f (last at e, tt))
    ]
      where
        last : IsAt root h pid → pid == root ≡ false → Explained roots h pid
        last (inl same) e = absurd (cc ((==_iff pid root).1 same, e))
        last (inr d) e = (root, i, d, (λ same. cc ((==_iff pid root).1 same, e)))

    collect-Safe :
        (root : ℕ)
        → In root roots
        → (fuel pid : ℕ) (out : List ℕ) (h : Trace) → IsAt root h pid
        → Found h out
        → Safe Found (collect fuel w root pid out) h
    unfolding collect
    collect-Safe root i zero pid out h at f = λ c. (c, (λ s j. j), tt)
    collect-Safe root i (suc fuel) pid out h at f =
        Safe-bind (λ h' cs. In (listed pid cs) h') Found (run_pgrep w pid)
          (λ children. collect_each (collect fuel w root) children out >>= λ more.
            pure (if pid == root then more else more ++ (pid ∷ [])))
          h (run_pgrep-Safe pid h)
          (λ children h1 l1 seen.
            Safe-bind Found Found (collect_each (collect fuel w root) children out)
              (λ more. pure (if pid == root then more else more ++ (pid ∷ []))) h1
              (collect_each-Safe root (collect fuel w root) (collect-Safe root i fuel) children out
                h1 (IsAt-child root pid children h1 (IsAt-Later root h h1 pid l1 at) seen)
                (All-Later h h1 out l1 f))
              (λ more h2 l2 f2. Safe-pure Found _ h2 (
                collected root pid more h2 i (IsAt-Later root h h2 pid (λ s j. l2 s (l1 s j)) at)
                  f2)))

    collect_roots-Safe :
        (fuel : ℕ) (rs pass : List ℕ) (h : Trace)
        → All (λ r. In r roots) rs
        → Found h pass
        → Safe Found (collect_roots fuel w rs pass) h
    unfolding collect_roots descendants
    collect_roots-Safe fuel [] pass h a f = Safe-pure Found pass h f
    collect_roots-Safe fuel (r ∷ rs) pass h (i, a) f =
        Safe-bind Found Found (descendants fuel w r)
          (λ found. collect_roots fuel w rs (pass ++ found)) h
          (collect-Safe r i fuel r [] h (inl refl) tt)
          (λ found h' l f'.
            collect_roots-Safe fuel rs (pass ++ found) h' a
              (All-append (Explained roots h') pass found (All-Later h h' pass l f) f'))

    abbrev Any : Trace → Done → Type 0
    Any h u = Unit

    make-Safe : (s : Step) (h : Trace) → Fine roots h s → Safe Any (make s) h
    make-Safe s h f c = ((f, c), (λ t i. inr i), tt)

    signal_all-Safe :
        (signal : ℕ → Step)
        → ((p : ℕ) (h : Trace) → Explained roots h p → Fine roots h (signal p))
        → (pids : List ℕ) (h : Trace) → Found h pids
        → Safe Any (signal_all signal pids) h
    unfolding signal_all
    signal_all-Safe signal fine [] h f = Safe-pure Any tt h tt
    signal_all-Safe signal fine (p ∷ ps) h (e, f) =
        Safe-bind Any Any (make (signal p)) (λ _. signal_all signal ps) h
          (make-Safe (signal p) h (fine p h e))
          (λ u h' l t. signal_all-Safe signal fine ps h' (All-Later h h' ps l f))

    passes-Safe :
        (fuel : ℕ) (h : Trace)
        → Safe Any
            (collect_roots fuel w roots [] >>= λ first_pass. signal_all term first_pass >>= λ _.
              make slept >>= λ _.
              collect_roots fuel w roots [] >>= λ second_pass. signal_all kill second_pass)
            h
    passes-Safe fuel h =
        Safe-bind Found Any (collect_roots fuel w roots []) _ h
          (collect_roots-Safe fuel roots [] h (All-In roots) tt)
          (λ first h1 l1 f1.
            Safe-bind Any Any (signal_all term first) _ h1
              (signal_all-Safe term (λ p t e. e) first h1 f1)
              (λ u h2 l2 t2.
                Safe-bind Any Any (make slept) _ h2 (make-Safe slept h2 tt) (λ v h3 l3 t3.
                  Safe-bind Found Any (collect_roots fuel w roots []) _ h3
                    (collect_roots-Safe fuel roots [] h3 (All-In roots) tt)
                    (λ second h4 l4 f4. signal_all-Safe kill (λ p t e. e) second h4 f4))))

-- Whatever processes come and go meanwhile, before each signal of a reaping `pgrep` has listed its
-- process as a child of one of the roots or of a process listed below that root, and it is another
-- process than that root. It may be another of the roots, where that is listed below this one.
pub reap_descendants-AreExplained :
    (fuel : ℕ) (w : Pgrep) (roots : List ℕ)
    → AreExplained roots ((reap_descendants fuel w roots []).1)
unfolding reap_descendants
reap_descendants-AreExplained fuel w [] = tt
reap_descendants-AreExplained fuel w (root ∷ roots) = (passes-Safe (root ∷ roots) w fuel [] tt).0
