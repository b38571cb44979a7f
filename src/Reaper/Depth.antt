-- ===== src/Reaper/Depth.antt =====
-- Enough calls for the collection of descendants.
use winter_service_tmux.Prelude.{
  ℕ, zero, suc, ◌<◌, ◌≡◌, refl, Option, none, some, List, [], ◌∷◌, ◌++◌, arith, if◌then◌else◌, ◌==◌,
  nat_eq, text_eq, All,
}
use winter_service_tmux.Prelude.{All-map}
use winter_service_tmux.Reaper.{
  Step, listed, term, kill, slept, Trace, Ended, ended, no_pgrep, unfinished, R, Done, ◌>>=◌, pure,
  make, Pgrep, run_pgrep, collect_each, collect, descendants, collect_roots, signal_all,
  reap_descendants,
}

-- a child is always listed with a smaller rank than its parent
abbrev pub Falls : Pgrep → (ℕ → ℕ) → Type 0
Falls w rank =
    (h : Trace) (pid : ℕ) (children : List ℕ)
    → w h pid ≡ some children
    → All (λ c. rank c < rank pid) children

abbrev pub IsOver : {A : Type 0} → Ended A → Type 0
IsOver (ended _) = Unit
IsOver no_pgrep = Unit
IsOver unfinished = ⊥

-- over from every trace on
abbrev Ends : {A : Type 0} → R A → Type 0
Ends m = (h : Trace) → IsOver ((m h).0)

Ends-bind :
    {A B : Type 0} (m : R A) (f : A → R B) → Ends m → ((a : A) → Ends (f a)) → Ends (m >>= f)
Ends-bind {A = A} {B = B} m f e k h = after ((m h).0) ((m h).1) (e h) k
  where
    after :
        (r : Ended A) (h' : Trace)
        → IsOver r
        → ((a : A) → Ends (f a))
        → let out : Ended B × Trace = elim r [
          | ended a ↦ f a h'
          | no_pgrep ↦ (no_pgrep, h')
          | unfinished ↦ (unfinished, h')
        ] in
          IsOver (out.0)
    after (ended a) h' e k = k a h'
    after no_pgrep h' e k = tt
    after unfinished h' e k = e

collect_each-Ends :
    (step : ℕ → List ℕ → R (List ℕ)) (children out : List ℕ)
    → All (λ c. (out : List ℕ) → Ends (step c out)) children
    → Ends (collect_each step children out)
unfolding collect_each
collect_each-Ends step [] out e = λ h. tt
collect_each-Ends step (c ∷ cs) out (e, es) =
    Ends-bind (step c out) (collect_each step cs) (e out)
      (λ more. collect_each-Ends step cs more es)

-- what comes behind an answer `o` of `pgrep`
answered :
    {A : Type 0} (pid : ℕ) (f : List ℕ → R A) (h : Trace) (o : Option (List ℕ))
    → ((cs : List ℕ) → o ≡ some cs → Ends (f cs))
    → IsOver (
        (((λ t. elim o [ none ↦ (no_pgrep, t) | some cs ↦ (ended cs, listed pid cs ∷ t) ]) >>= f)
          h).0)
answered pid f h none k = tt
answered pid f h (some cs) k = k cs refl (listed pid cs ∷ h)

module _ (w : Pgrep) (rank : ℕ → ℕ) (falls : Falls w rank) where
  collect-Ends :
      (fuel root pid : ℕ) (out : List ℕ) → rank pid < fuel → Ends (collect fuel w root pid out)
  unfolding collect run_pgrep
  collect-Ends zero root pid out lt = absurd (omega (arith, lt))
  collect-Ends (suc fuel) root pid out lt = λ h.
      answered pid
        (λ children. collect_each (collect fuel w root) children out >>= λ more.
          pure (if pid == root then more else more ++ (pid ∷ [])))
        h (w h pid)
        (λ cs e.
          Ends-bind (collect_each (collect fuel w root) cs out)
            (λ more. pure (if pid == root then more else more ++ (pid ∷ [])))
            (collect_each-Ends (collect fuel w root) cs out (
              All-map (λ c less o. collect-Ends fuel root c o (omega (arith, lt, less))) cs
                (falls h pid cs e)))
            (λ more t. tt))

  collect_roots-Ends :
      (fuel : ℕ) (roots pass : List ℕ)
      → All (λ r. rank r < fuel) roots
      → Ends (collect_roots fuel w roots pass)
  unfolding collect_roots descendants
  collect_roots-Ends fuel [] pass a = λ h. tt
  collect_roots-Ends fuel (r ∷ rs) pass (lt, a) =
      Ends-bind (descendants fuel w r) (λ found. collect_roots fuel w rs (pass ++ found))
        (collect-Ends fuel r r [] lt) (λ found. collect_roots-Ends fuel rs (pass ++ found) a)

  signal_all-Ends : (signal : ℕ → Step) (pids : List ℕ) → Ends (signal_all signal pids)
  unfolding signal_all
  signal_all-Ends signal [] = λ h. tt
  signal_all-Ends signal (p ∷ ps) =
      Ends-bind (make (signal p)) (λ _. signal_all signal ps) (λ h. tt)
        (λ u. signal_all-Ends signal ps)

  -- Where a child is always listed with a smaller rank than its parent, as it is where processes
  -- are ranked by their age, a reaping with more calls than the rank of each root is over.
  pub reap_descendants-IsOver :
      (fuel : ℕ) (roots : List ℕ) (h : Trace)
      → All (λ r. rank r < fuel) roots
      → IsOver ((reap_descendants fuel w roots h).0)
  unfolding reap_descendants
  reap_descendants-IsOver fuel [] h a = tt
  reap_descendants-IsOver fuel (root ∷ roots) h a =
      let kills : List ℕ → R Done = λ second_pass. signal_all kill second_pass in
      let second : R Done = collect_roots fuel w (root ∷ roots) [] >>= kills in
      let waits : R Done = make slept >>= λ _. second in
      let terms : List ℕ → R Done = λ first_pass. signal_all term first_pass >>= λ _. waits in
      let collects : Ends (collect_roots fuel w (root ∷ roots) []) =
        collect_roots-Ends fuel (root ∷ roots) [] a in
      let over : Ends second =
        Ends-bind (collect_roots fuel w (root ∷ roots) []) kills collects (signal_all-Ends kill) in
      let slow : Ends waits = Ends-bind (make slept) (λ _. second) (λ t. tt) (λ _. over) in
      Ends-bind (collect_roots fuel w (root ∷ roots) []) terms collects
        (λ first.
          Ends-bind (signal_all term first) (λ _. waits) (signal_all-Ends term first) (λ _. slow))
        h
