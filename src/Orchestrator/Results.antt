-- ===== src/Orchestrator/Results.antt =====
-- What an operation returns where it returns, whatever stands behind the seams.
use winter_service_tmux.Prelude.{◌≡◌, refl, sym, ap, ◌∙◌, subst, inl, inr, nat_eq, text_eq}
use winter_service_tmux.Orchestrator.Host.{
  M, Result, returned, Trace, pure, throw, attempt, ◌>>=◌, Failure,
}
use winter_service_tmux.Orchestrator.Effects.{bind-cases}

abbrev pub Gives : {A : Type 0} → (A → Type 0) → M A → Type 0
Gives Q m = (h h' : Trace) → (a : _) → m h ≡ (returned a, h') → Q a

pub Gives-pure : {A : Type 0} (Q : A → Type 0) (a : A) → Q a → Gives Q (pure a)
unfolding pure
Gives-pure Q a q h h' b e = subst Q (cc e) q

pub Gives-throw : {A : Type 0} (Q : A → Type 0) (e : Failure) → Gives Q (throw e)
unfolding throw
Gives-throw Q f h h' b e = absurd (cc e)

pub Gives-bind :
    {A B : Type 0} (Q : A → Type 0) (R : B → Type 0) (m : M A) (f : A → M B)
    → Gives Q m
    → ((a : A) → Q a → Gives R (f a))
    → Gives R (m >>= f)
Gives-bind Q R m f dm df h h' b e = elim (bind-cases m f h) [
  | inl (x, h1, _, r) ↦ absurd (cc (r, e))
  | inr (a, h1, ended, r) ↦ df a (dm h h1 a ended) h1 h' b (sym r ∙ e)
]

pub Gives-any : {A : Type 0} (m : M A) → Gives (λ _. Unit {0}) m
Gives-any m h h' a e = tt

-- The outcome of an attempt is how the operation has ended.
pub Gives-attempt :
    {A : Type 0} (m : M A) → Gives (λ r. (h : Trace) × (h' : Trace) × (m h ≡ (r, h'))) (attempt m)
unfolding attempt
Gives-attempt {A = A} m h h' r e =
    let outer : returned ((m h).0) ≡ returned r = ap (λ p. p.0) e in
    let same : (m h).0 ≡ r = cc outer in
    (h, (m h).1, subst (λ (x : Result A). m h ≡ (x, (m h).1)) same refl)
