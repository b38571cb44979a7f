-- ===== src/Orchestrator/Effects.antt =====
-- A postcondition for the actions of orchestrator_service.py: the calls an operation adds to the
-- trace, and what it returns.
use winter_service_tmux.Prelude.{
  ◌≡◌, refl, ap, ◌⊎◌, inl, inr, Bool, true, false, Option, none, some, List, [], ◌∷◌, ◌++◌,
  if◌then◌else◌, nat_eq, text_eq, All,
}
use mathlib.Core.Path.{subst}
use winter_service_tmux.Orchestrator.Host.{
  M, Done, Result, returned, raised, Trace, Action, Query, did, asked, actions, pure, throw, catch,
  attempt, act, ask, Outside, for_each, ◌>>=◌, Failure,
}

abbrev pub Returns : {A : Type 0} → (A → Type 0) → Result A → Type 0
Returns Q (returned a) = Q a
Returns Q (raised e) = Unit {0}

-- From the trace `h` on, calls that only look, and actions that satisfy `P` where they are made.
pub data Trail (P : Trace → Action → Type 0) (h : Trace) : Trace → Type 0 where
  start : Trail P h h
  looked : {q : Query} {h' : Trace} → Trail P h h' → Trail P h (asked q ∷ h')
  made : {a : Action} {h' : Trace} → P h' a → Trail P h h' → Trail P h (did a ∷ h')

pub Trail-join :
    {P : Trace → Action → Type 0} {h0 h1 h2 : Trace} → Trail P h0 h1 → Trail P h1 h2 → Trail P h0 h2
Trail-join t start = t
Trail-join t (looked u) = looked (Trail-join t u)
Trail-join t (made p u) = made p (Trail-join t u)

pub Trail-map :
    {P R : Trace → Action → Type 0} {h0 h1 : Trace}
    → ((h : Trace) (a : Action) → P h a → R h a)
    → Trail P h0 h1
    → Trail R h0 h1
Trail-map f start = start
Trail-map f (looked t) = looked (Trail-map f t)
Trail-map f (made p t) = made (f _ _ p) (Trail-map f t)

-- the actions of the steps
pub Trail-actions :
    {P : Action → Type 0} {h0 h1 : Trace}
    → Trail (λ _. P) h0 h1
    → (new : List Action) × (actions h1 ≡ new ++ actions h0) × All P new
unfolding actions
Trail-actions start = ([], refl, tt)
Trail-actions (looked t) = Trail-actions t
Trail-actions (made {a = a} p t) =
    let (new, eq, all) = Trail-actions t in (a ∷ new, ap (λ l. a ∷ l) eq, (p, all))

-- Each action that `m` adds satisfies `P`, and what it returns satisfies `Q`.
abbrev pub Ends :
    {A : Type 0} → (Action → Type 0) → (A → Type 0) → Trace → Result A × Trace → Type 0
Ends P Q h (r, h') = Trail (λ _. P) h h' × Returns Q r

pub data Effect (A : Type 0) (P : Action → Type 0) (Q : A → Type 0) (m : M A) : Type 0 where
  does : ((h : Trace) → Ends P Q h (m h)) → Effect A P Q m

abbrev pub Does : {A : Type 0} → (Action → Type 0) → (A → Type 0) → M A → Type 0
Does {A} P Q m = Effect A P Q m

abbrev pub Anything : {A : Type 0} → A → Type 0
Anything _ = Unit {0}

pub Returns-Anything : {A : Type 0} (r : Result A) → Returns Anything r
Returns-Anything (returned a) = tt
Returns-Anything (raised e) = tt

pub trail_of :
    {A : Type 0} {P : Action → Type 0} {Q : A → Type 0} {m : M A}
    → Does P Q m
    → (h : Trace) → Ends P Q h (m h)
trail_of (does f) = f

pub ran :
    {A : Type 0} {P : Action → Type 0} {Q : A → Type 0} {m : M A}
    → Does P Q m
    → (h : Trace)
    → (new : List Action) × (actions ((m h).1) ≡ new ++ actions h) × All P new × Returns Q ((m h).0)
ran (does f) h = let (t, q) = f h in let (new, eq, p) = Trail-actions t in (new, eq, p, q)

no-actions : (new : List Action) → All (λ _. ⊥) new → new ≡ []
no-actions [] p = refl
no-actions (a ∷ new) p = absurd (p.0)

module _ {P : Action → Type 0} where
  pub Does-pure : {A : Type 0} {Q : A → Type 0} (a : A) → Q a → Does P Q (pure a)
  unfolding pure
  Does-pure a q = does (λ h. (start, q))

  pub Does-throw : {A : Type 0} {Q : A → Type 0} (e : Failure) → Does P Q (throw e)
  unfolding throw
  Does-throw e = does (λ h. (start, tt))

  pub Does-act : (w : Outside) (a : Action) → P a → Does P Anything (act w a)
  unfolding act actions
  Does-act w a p = does (λ h. (made p start, Returns-Anything (w.perform h a)))

  pub Does-ask :
      {A : Type 0} (answer : Trace → Query → Result A) (q : Query) → Does P Anything (ask answer q)
  unfolding ask actions
  Does-ask answer q = does (λ h. (looked start, Returns-Anything (answer h q)))

  bind-Ends :
      {A B : Type 0} {Q : A → Type 0} {R : B → Type 0} {f : A → M B} (h : Trace)
      (end : Result A × Trace)
      → Ends P Q h end
      → ((a : A) → Q a → Does P R (f a))
      → Ends P R h (let (r, h') = end in elim r [ returned a ↦ f a h' | raised e ↦ (raised e, h') ])
  bind-Ends h (raised e, h') (t, q) df = (t, tt)
  bind-Ends h (returned a, h') (t, q) df =
      let (t', q') = trail_of (df a q) h' in (Trail-join t t', q')

  pub Does-bind :
      {A B : Type 0} {Q : A → Type 0} {R : B → Type 0} {m : M A} {f : A → M B}
      → Does P Q m
      → ((a : A) → Q a → Does P R (f a))
      → Does P R (m >>= f)
  unfolding ◌>>=◌
  Does-bind {m = m} (does dm) df = does (λ h. bind-Ends h (m h) (dm h) df)

  catch-Ends :
      {A : Type 0} {Q : A → Type 0} {f : Failure → M A} (h : Trace) (end : Result A × Trace)
      → Ends P Q h end
      → ((e : Failure) → Does P Q (f e))
      → Ends P Q h
          (let (r, h') = end in elim r [ returned a ↦ (returned a, h') | raised e ↦ f e h' ])
  catch-Ends h (returned a, h') ends df = ends
  catch-Ends h (raised e, h') (t, q) df = let (t', q') = trail_of (df e) h' in (Trail-join t t', q')

  pub Does-catch :
      {A : Type 0} {Q : A → Type 0} {m : M A} {f : Failure → M A}
      → Does P Q m
      → ((e : Failure) → Does P Q (f e))
      → Does P Q (catch m f)
  unfolding catch
  Does-catch {m = m} (does dm) df = does (λ h. catch-Ends h (m h) (dm h) df)

  pub Does-attempt :
      {A : Type 0} {Q : A → Type 0} {m : M A} → Does P Q m → Does P (Returns Q) (attempt m)
  unfolding attempt
  Does-attempt {m = m} (does dm) = does (λ h. dm h)

  -- one operation for each element
  pub Does-for_each :
      {A : Type 0} {f : A → M Done} (xs : List A)
      → ((a : A) → Does P Anything (f a))
      → Does P Anything (for_each xs f)
  unfolding for_each
  Does-for_each [] df = Does-pure _ tt
  Does-for_each (x ∷ xs) df = Does-bind (df x) (λ _ _. Does-for_each xs df)

  pub Does-any : {A : Type 0} {Q : A → Type 0} {m : M A} → Does P Q m → Does P Anything m
  Does-any (does dm) = does (λ h. let (t, q) = dm h in (t, Returns-Anything _))

pub Does-weaken :
    {A : Type 0} {P P' : Action → Type 0} {Q : A → Type 0} {m : M A}
    → ((a : Action) → P a → P' a)
    → Does P Q m
    → Does P' Q m
Does-weaken imp (does dm) = does (λ h. let (t, q) = dm h in (Trail-map (λ g. imp) t, q))

-- an operation that only looks
abbrev pub Quiet : {A : Type 0} → M A → Type 0
Quiet m = Does (λ _. ⊥) Anything m

pub Quiet-actions :
    {A : Type 0} {Q : A → Type 0} {m : M A}
    → Does (λ _. ⊥) Q m
    → (h : Trace) → actions ((m h).1) ≡ actions h
Quiet-actions dm h = let (new, eq, p, q) = ran dm h in rw (eq, no-actions new p) refl

abbrev pub Acts : {A : Type 0} → (Action → Type 0) → M A → Type 0
Acts P m = Does P Anything m

module _ {P : Action → Type 0} where
  pub Acts-pure : {A : Type 0} (a : A) → Acts P (pure a)
  Acts-pure a = Does-pure a tt

  pub Acts-throw : {A : Type 0} (e : Failure) → Acts P (throw {A = A} e)
  Acts-throw e = Does-throw e

  pub Acts-bind :
      {A B : Type 0} {m : M A} {f : A → M B}
      → Acts P m
      → ((a : A) → Acts P (f a))
      → Acts P (m >>= f)
  Acts-bind dm df = Does-bind dm (λ a _. df a)

  pub Acts-if :
      {A : Type 0} (b : Bool) {m k : M A} → Acts P m → Acts P k → Acts P (if b then m else k)
  Acts-if true dm dk = dm
  Acts-if false dm dk = dk

  pub Acts-option :
      {A B : Type 0} (o : Option B) {m : M A} {f : B → M A}
      → Acts P m
      → ((b : B) → Acts P (f b))
      → Acts P (elim o [ none ↦ m | some b ↦ f b ])
  Acts-option none dm df = dm
  Acts-option (some b) dm df = df b

  pub Acts-result :
      {A B : Type 0} (r : Result B) {f : B → M A} {g : Failure → M A}
      → ((b : B) → Acts P (f b))
      → ((e : Failure) → Acts P (g e))
      → Acts P (elim r [ returned b ↦ f b | raised e ↦ g e ])
  Acts-result (returned b) df dg = df b
  Acts-result (raised e) df dg = dg e

pub ruleset acts_rules =
    (Acts-pure, Acts-throw, Acts-bind, Acts-if, Acts-option, Acts-result, Does-ask, Does-act)

pub Quiet-trace :
    {A : Type 0} {Q : A → Type 0} {m : M A} {r : Result A} {h h' : Trace}
    → Does (λ _. ⊥) Q m
    → m h ≡ (r, h')
    → actions h' ≡ actions h
Quiet-trace {h = h} quiet eq = subst (λ end. actions (end.1) ≡ actions h) eq (Quiet-actions quiet h)

bind-end :
    {A B : Type 0} (f : A → M B) (end : Result A × Trace)
    → ((e : Failure) × (h' : Trace) × (end ≡ (raised e, h'))
        × ((let (r, h') = end in elim r [ returned a ↦ f a h' | raised e ↦ (raised e, h') ])
            ≡ (raised e, h')))
      ⊎ ((a : A) × (h' : Trace) × (end ≡ (returned a, h'))
          × ((let (r, h') = end in elim r [ returned a ↦ f a h' | raised e ↦ (raised e, h') ])
              ≡ f a h'))
bind-end f (raised e, h') = inl (e, h', refl, refl)
bind-end f (returned a, h') = inr (a, h', refl, refl)

-- A sequence ends with its first part, or goes on from it.
pub bind-cases :
    {A B : Type 0} (m : M A) (f : A → M B) (h : Trace)
    → ((e : Failure) × (h' : Trace) × (m h ≡ (raised e, h')) × ((m >>= f) h ≡ (raised e, h')))
      ⊎ ((a : A) × (h' : Trace) × (m h ≡ (returned a, h')) × ((m >>= f) h ≡ f a h'))
unfolding ◌>>=◌
bind-cases m f h = bind-end f (m h)

answered :
    {A : Type 0} (answer : Trace → Query → Result A) (q : Query) (h : Trace) (r : Result A)
    → answer h q ≡ r
    → Returns (λ a. (h : Trace) × (answer h q ≡ returned a)) r
answered answer q h (returned a) e = (h, e)
answered answer q h (raised f) e = tt

-- What a look returned has been answered.
pub Does-ask-answer :
    {A : Type 0} {P : Action → Type 0} (answer : Trace → Query → Result A) (q : Query)
    → Does P (λ a. (h : Trace) × (answer h q ≡ returned a)) (ask answer q)
unfolding ask actions
Does-ask-answer answer q = does (λ h. (looked start, answered answer q h (answer h q) refl))

abbrev after : {A B : Type 0} → (A → M B) → Result A × Trace → Result B × Trace
after f (r, h') = elim r [ returned a ↦ f a h' | raised e ↦ (raised e, h') ]

pub bind-raised :
    {A B : Type 0} (m : M A) (f : A → M B) (h h' : Trace) (e : Failure)
    → m h ≡ (raised e, h')
    → (m >>= f) h ≡ (raised e, h')
unfolding ◌>>=◌
bind-raised m f h h' e eq = ap (after f) eq

pub bind-returned :
    {A B : Type 0} (m : M A) (f : A → M B) (h h' : Trace) (a : A)
    → m h ≡ (returned a, h')
    → (m >>= f) h ≡ f a h'
unfolding ◌>>=◌
bind-returned m f h h' a eq = ap (after f) eq

Returns-imp :
    {A : Type 0} {Q R : A → Type 0} (r : Result A)
    → ((a : A) → Q a → R a)
    → Returns Q r
    → Returns R r
Returns-imp (returned a) f q = f a q
Returns-imp (raised e) f q = tt

pub Does-imp :
    {A : Type 0} {P : Action → Type 0} {Q R : A → Type 0} {m : M A}
    → ((a : A) → Q a → R a)
    → Does P Q m
    → Does P R m
Does-imp f (does dm) = does (λ h. let (t, q) = dm h in (t, Returns-imp _ f q))
