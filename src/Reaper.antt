-- ===== src/Reaper.antt =====
-- src/service_orchestrator/modules/orchestrate/internal/pgrep_process_reaper.py: the collection of
-- the descendants of a process, and their end. What `pgrep` answers is a function of the steps
-- made before, so processes may come and go at any time; a signal that fails changes nothing here.
pub mod Signals
pub mod Depth
use winter_service_tmux.Prelude.{
  ℕ, zero, suc, ◌+◌, ◌-◌, ◌*◌, ◌/◌, ◌%◌, ◌≤◌, ◌<◌, ◌≡◌, refl, sym, ap, ◌∙◌, subst, ◌≢◌, ◌↔◌, ◌⊎◌,
  inl, inr, Bool, true, false, not, ◌&&◌, ◌||◌, Option, none, some, List, [], ◌∷◌, ◌++◌, map,
  append_assoc, append-nil, arith, ltb, leb, nat_beq, if◌then◌else◌, Bool-cases, Option-cases, Eq,
  ◌==◌, ==_iff, ==_refl, nat_eq, Text, text_eq, text_beq, text_beq_iff, contains, contains-append,
  length, take, drop, filter, any, all, length-append, take-append-drop, length-drop, drop-append,
  filter-append, length-filter-le, All, All-append,
}

-- the steps: an answer of `pgrep -P`, the two signals and the second of sleep
pub data Step : Type 0 where
  listed : ℕ → List ℕ → Step
  term : ℕ → Step
  kill : ℕ → Step
  slept : Step

-- the last step first
abbrev pub Trace : Type 0
Trace = List Step

-- `unfinished` is a collection that is not over after the calls its model has.
pub data Ended {ℓ} (A : Type ℓ) : Type ℓ where
  ended : A → Ended A
  no_pgrep : Ended A
  unfinished : Ended A

abbrev pub R : Type 0 → Type 0
R A = Trace → Ended A × Trace

abbrev pub Done : Type 0
Done = Unit {0}

infixl 4 ◌>>=◌
abbrev pub ◌>>=◌ : {A B : Type 0} → R A → (A → R B) → R B
◌>>=◌ m f h =
    let (r, h') = m h in
    elim r [ ended a ↦ f a h' | no_pgrep ↦ (no_pgrep, h') | unfinished ↦ (unfinished, h') ]

abbrev pub pure : {A : Type 0} → A → R A
pure a h = (ended a, h)

abbrev pub make : Step → R Done
make s h = (ended tt, s ∷ h)

-- the children that `pgrep -P` prints, or `none` where there is no `pgrep`
abbrev pub Pgrep : Type 0
Pgrep = Trace → ℕ → Option (List ℕ)

-- `_run_pgrep`, read as numbers
unfoldable pub run_pgrep : Pgrep → ℕ → R (List ℕ)
run_pgrep w pid h = elim (w h pid) [
  | none ↦ (no_pgrep, h)
  | some children ↦ (ended children, listed pid children ∷ h)
]

unfoldable pub collect_each : (ℕ → List ℕ → R (List ℕ)) → List ℕ → List ℕ → R (List ℕ)
collect_each collect [] out = pure out
collect_each collect (child ∷ children) out =
    collect child out >>= λ more. collect_each collect children more

-- `_collect`: the descendants of a child stand in front of it
unfoldable pub collect : ℕ → Pgrep → ℕ → ℕ → List ℕ → R (List ℕ)
unfolding run_pgrep collect_each
collect zero w root pid out = λ h. (unfinished, h)
collect (suc fuel) w root pid out = run_pgrep w pid >>= λ children.
    collect_each (collect fuel w root) children out >>= λ more.
    pure (if pid == root then more else more ++ (pid ∷ []))

unfoldable pub descendants : ℕ → Pgrep → ℕ → R (List ℕ)
unfolding collect
descendants fuel w pid = collect fuel w pid pid []

-- one pass over the roots
unfoldable pub collect_roots : ℕ → Pgrep → List ℕ → List ℕ → R (List ℕ)
unfolding descendants
collect_roots fuel w [] pass = pure pass
collect_roots fuel w (root ∷ roots) pass =
    descendants fuel w root >>= λ found. collect_roots fuel w roots (pass ++ found)

unfoldable pub signal_all : (ℕ → Step) → List ℕ → R Done
signal_all signal [] = pure tt
signal_all signal (pid ∷ pids) = make (signal pid) >>= λ _. signal_all signal pids

unfoldable pub reap_descendants : ℕ → Pgrep → List ℕ → R Done
unfolding collect_roots signal_all
reap_descendants fuel w [] = pure tt
reap_descendants fuel w (root ∷ roots) = collect_roots fuel w (root ∷ roots) [] >>= λ first_pass.
    signal_all term first_pass >>= λ _. make slept >>= λ _.
    collect_roots fuel w (root ∷ roots) [] >>= λ second_pass. signal_all kill second_pass
