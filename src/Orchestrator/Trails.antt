-- ===== src/Orchestrator/Trails.antt =====
-- Postconditions that know when a call is made: an operation of orchestrator_service.py from a
-- trace on, its steps, and what it returns with the trace at its end.
use winter_service_tmux.Prelude.{
  ◌≡◌, refl, sym, ap, ◌∙◌, Bool, true, false, [], ◌∷◌, ◌++◌, append_assoc, if◌then◌else◌, nat_eq,
  text_eq,
}
use winter_service_tmux.Orchestrator.Host.{
  M, Done, Result, returned, raised, Trace, Action, Query, did, asked, pure, act, ask, Outside,
  ◌>>=◌,
}
use winter_service_tmux.Orchestrator.Effects.{
  Trail, start, looked, made, Trail-join, Trail-map, Acts, Does, Returns, trail_of,
}

-- the trace with later calls in front
abbrev pub Grows : Trace → Trace → Type 0
Grows h h' = (d : Trace) × (h' ≡ d ++ h)

pub Trail-Grows : {P : Trace → Action → Type 0} {h h' : Trace} → Trail P h h' → Grows h h'
Trail-Grows start = ([], refl)
Trail-Grows (looked {q = q} t) =
    let (d, e) = Trail-Grows t in (asked q ∷ d, ap (λ l. asked q ∷ l) e)
Trail-Grows (made {a = a} p t) = let (d, e) = Trail-Grows t in (did a ∷ d, ap (λ l. did a ∷ l) e)

pub Grows-trans : (a b c : Trace) → Grows a b → Grows b c → Grows a c
Grows-trans a b c (d, e) (d', e') = (d' ++ d, e' ∙ ap (λ l. d' ++ l) e ∙ sym (append_assoc d' d a))

abbrev pub ReturnsAt : {A : Type 0} → (Trace → A → Type 0) → Result A → Trace → Type 0
ReturnsAt Q (returned a) h = Q h a
ReturnsAt Q (raised e) h = Unit

abbrev pub Runs :
    {A : Type 0} → (Trace → Action → Type 0) → (Trace → A → Type 0) → M A → Trace → Type 0
Runs P Q m h = Trail P h ((m h).1) × ReturnsAt Q ((m h).0) ((m h).1)

abbrev pub Whatever : {A : Type 0} → Trace → A → Type 0
Whatever h a = Unit {0}

Whatever-at : {A : Type 0} (r : Result A) (h : Trace) → ReturnsAt Whatever r h
Whatever-at (returned a) h = tt
Whatever-at (raised e) h = tt

module _ {P : Trace → Action → Type 0} where
  pub Runs-pure :
      {A : Type 0} (Q : Trace → A → Type 0) (a : A) (h : Trace) → Q h a → Runs P Q (pure a) h
  unfolding pure
  Runs-pure Q a h q = (start, q)

  pub Runs-any : {A : Type 0} (a : A) (h : Trace) → Runs P Whatever (pure a) h
  Runs-any a h = Runs-pure Whatever a h tt

  after_bind :
      {A B : Type 0} (Q : Trace → A → Type 0) (R : Trace → B → Type 0) (f : A → M B) (h : Trace)
      (end : Result A × Trace)
      → Trail P h (end.1)
      → ReturnsAt Q (end.0) (end.1)
      → ((a : A) (h' : Trace) → Trail P h h' → Q h' a → Runs P R (f a) h')
      → let out : Result B × Trace = elim (end.0) [
        | returned a ↦ f a (end.1)
        | raised e ↦ (raised e, end.1)
      ] in
        Trail P h (out.1) × ReturnsAt R (out.0) (out.1)
  after_bind Q R f h (raised e, h') t q k = (t, tt)
  after_bind Q R f h (returned a, h') t q k = let (t', r) = k a h' t q in (Trail-join t t', r)

  pub Runs-bind :
      {A B : Type 0} (Q : Trace → A → Type 0) (R : Trace → B → Type 0) (m : M A) (f : A → M B)
      (h : Trace)
      → Runs P Q m h
      → ((a : A) (h' : Trace) → Trail P h h' → Q h' a → Runs P R (f a) h')
      → Runs P R (m >>= f) h
  unfolding ◌>>=◌
  Runs-bind Q R m f h (t, q) k = after_bind Q R f h (m h) t q k

  pub Runs-act :
      (w : Outside) (a : Action) (h : Trace) → P h a → Runs P (λ h' u. h' ≡ did a ∷ h) (act w a) h
  unfolding act
  Runs-act w a h p = (made p start, ends (w.perform h a))
    where
      ends : (r : Result Done) → ReturnsAt (λ h' u. h' ≡ did a ∷ h) r (did a ∷ h)
      ends (returned u) = refl
      ends (raised e) = tt

  -- What a look returned was answered just then.
  pub Runs-ask :
      {A : Type 0} (answer : Trace → Query → Result A) (q : Query) (h : Trace)
      → Runs P (λ h' a. (h' ≡ asked q ∷ h) × (answer h q ≡ returned a)) (ask answer q) h
  unfolding ask
  Runs-ask {A = A} answer q h = (looked start, ends (answer h q) refl)
    where
      ends :
          (r : Result A)
          → answer h q ≡ r
          → ReturnsAt (λ h' a. (h' ≡ asked q ∷ h) × (answer h q ≡ returned a)) r (asked q ∷ h)
      ends (returned a) e = (refl, e)
      ends (raised f) e = tt

  pub Runs-if :
      {A : Type 0} (Q : Trace → A → Type 0) (b : Bool) (m k : M A) (h : Trace)
      → Runs P Q m h
      → Runs P Q k h
      → Runs P Q (if b then m else k) h
  Runs-if Q true m k h dm dk = dm
  Runs-if Q false m k h dm dk = dk

  -- an operation whose actions are allowed at any time
  pub Runs-Acts :
      {A : Type 0} {S : Action → Type 0} {m : M A}
      → ((h : Trace) (a : Action) → S a → P h a)
      → Acts S m
      → (h : Trace) → Runs P Whatever m h
  Runs-Acts {m = m} f acts h =
      let (t, q) = trail_of acts h in (Trail-map f t, Whatever-at ((m h).0) ((m h).1))

  -- an operation whose actions are allowed at any time, with what it returns
  pub Runs-Does :
      {A : Type 0} {S : Action → Type 0} {Q : A → Type 0} {m : M A}
      → ((h : Trace) (a : Action) → S a → P h a)
      → Does S Q m
      → (h : Trace) → Runs P (λ h' a. Q a) m h
  Runs-Does {A = A} {Q = Q} {m = m} f d h =
      let (t, q) = trail_of d h in (Trail-map f t, ends ((m h).0) ((m h).1) q)
    where
      ends : (r : Result A) (h' : Trace) → Returns Q r → ReturnsAt (λ h' a. Q a) r h'
      ends (returned a) h' q = q
      ends (raised e) h' q = tt

  pub Runs-imp :
      {A : Type 0} (Q R : Trace → A → Type 0) (m : M A) (h : Trace)
      → Runs P Q m h
      → ((h' : Trace) (a : A) → Trail P h h' → Q h' a → R h' a)
      → Runs P R m h
  Runs-imp {A = A} Q R m h (t, q) f = (t, ends ((m h).0) ((m h).1) t q)
    where
      ends : (r : Result A) (h' : Trace) → Trail P h h' → ReturnsAt Q r h' → ReturnsAt R r h'
      ends (returned a) h' t q = f h' a t q
      ends (raised e) h' t q = tt
