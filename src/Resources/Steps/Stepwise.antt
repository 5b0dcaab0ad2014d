-- ===== src/Resources/Steps/Stepwise.antt =====
-- Actions that are sequences of steps, whichever way they end, and the calls of the outside.
use fastapi_core.Prelude.{
  String, Bool, true, false, List, [], ◌∷◌, ◌++◌, all-append, ◌≡◌, refl, sym, ap, ◌∙◌, arith,
  if◌then◌else◌, Option, none, some, inl, inr, not,
}
use fastapi_core.Prelude.Int.{ℤ, is_positive}
use fastapi_core.Result.{value_error, Result-cases}
use fastapi_core.Action.{Action, pure, raise, ◌>>=◌}
use fastapi_core.Store.{Callable, Value, Event, call, await, timer, Store, World, perform}
use fastapi_core.Invocation.{is_awaitable, settle, invoke, wait_for, invoke_resource}
use fastapi_core.Resources.Steps.{Step, asks, take, take_all, is_for, Reaches}

module _ (world : World) (names : List String) where
  pub none-Reaches : (s : Store) → Reaches world names s s
  unfolding take_all
  none-Reaches s = record { steps = []; own = refl; reached = refl }

  pub step-Reaches :
      (step : Step) (s : Store)
      → is_for names step ≡ true
      → Reaches world names s (take world step s)
  unfolding take_all
  step-Reaches step s own = record { steps = step ∷ []; own = ground arith; reached = refl }

  take_all-append :
      (xs ys : List Step) (s : Store)
      → take_all world (xs ++ ys) s ≡ take_all world ys (take_all world xs s)
  unfolding take_all
  take_all-append [] ys s = refl
  take_all-append (x ∷ xs) ys s = take_all-append xs ys (take world x s)

  pub then-Reaches :
      (s t u : Store) → Reaches world names s t → Reaches world names t u → Reaches world names s u
  then-Reaches s t u first second = record {
    steps = first.steps ++ second.steps;
    own = ground (arith, all-append (is_for names) first.steps second.steps, first.own, second.own);
    reached =
        second.reached
        ∙ ap (take_all world second.steps) first.reached
        ∙ sym (take_all-append first.steps second.steps s);
  }

  -- An action on a state with the store in it, whose every run is a sequence of steps.
  abbrev pub StepwiseOn {ℓ} : {S : Type 0} {A : Type ℓ} → (S → Store) → Action S A → Type 0
  StepwiseOn {S = S} store_of m = (s : S) → Reaches world names (store_of s) (store_of (m s).1)

  abbrev pub Stepwise {ℓ} : {A : Type ℓ} → Action Store A → Type 0
  Stepwise m = StepwiseOn (λ s. s) m

  module _ {ℓ κ} {S : Type 0} {A : Type ℓ} {B : Type κ} (store_of : S → Store) where
    pub bind-StepwiseOn :
        (m : Action S A) (k : A → Action S B)
        → StepwiseOn store_of m
        → ((a : A) → StepwiseOn store_of (k a))
        → StepwiseOn store_of (m >>= k)
    bind-StepwiseOn m k first rest s = elim (Result-cases (m s).0) [
      | inl (a, done) ↦ rw done (
          then-Reaches (store_of s) (store_of (m s).1) (store_of (k a (m s).1).1) (first s)
            (rest a (m s).1))
      | inr (e, failed) ↦ rw failed (first s)
    ]

  module _ {ℓ} {S : Type 0} {A : Type ℓ} (store_of : S → Store) where
    pub if-StepwiseOn :
        (b : Bool) (m m' : Action S A)
        → StepwiseOn store_of m
        → StepwiseOn store_of m'
        → StepwiseOn store_of (if b then m else m')
    if-StepwiseOn true m m' h h' = h
    if-StepwiseOn false m m' h h' = h'

  abbrev pub bind-Stepwise {ℓ κ} :
      {A : Type ℓ} {B : Type κ} (m : Action Store A) (k : A → Action Store B)
      → Stepwise m
      → ((a : A) → Stepwise (k a))
      → Stepwise (m >>= k)
  bind-Stepwise = bind-StepwiseOn (λ s. s)

  pub perform-Stepwise : (event : Event) → Stepwise (perform world event)
  unfolding take perform
  perform-Stepwise event s = step-Reaches (asks event) s refl

  pub settle-Stepwise : (v : Value) → Stepwise (settle world v)
  unfolding settle
  settle-Stepwise v =
      if-StepwiseOn (λ s. s) (is_awaitable v.view) (perform world (await v)) (pure v)
        (perform-Stepwise (await v)) none-Reaches

  pub invoke-Stepwise : (f : Callable) (args : List Value) → Stepwise (invoke world f args)
  unfolding invoke
  invoke-Stepwise f args =
      bind-Stepwise (perform world (call f args))
        (λ v. if f.is_coroutine then pure v else settle world v) (perform-Stepwise (call f args))
        (λ v.
          if-StepwiseOn (λ s. s) f.is_coroutine (pure v) (settle world v) none-Reaches
            (settle-Stepwise v))

  pub wait_for-Stepwise :
      (timeout : Option ℤ) (m : Action Store Value)
      → Stepwise m
      → Stepwise (wait_for world timeout m)
  unfolding wait_for
  wait_for-Stepwise none m h s = h s
  wait_for-Stepwise (some t) m h s =
      let timed =
        then-Reaches s (m s).1 (perform world (timer t) (m s).1).1 (h s)
          (perform-Stepwise (timer t) (m s).1) in
      elim (Result-cases (perform world (timer t) (m s).1).0) [
        | inl (v, done) ↦ rw done timed
        | inr (e, late) ↦ rw late timed
      ]

  pub invoke_resource-Stepwise :
      (f : Callable) (args : List Value) (timeout : Option ℤ)
      → Stepwise (invoke_resource world f args timeout)
  unfolding invoke_resource
  invoke_resource-Stepwise f args none = invoke-Stepwise f args
  invoke_resource-Stepwise f args (some t) =
      if-StepwiseOn (λ s. s) (not (is_positive t))
        (raise (value_error "timeout_seconds must be greater than zero"))
        (wait_for world (some t) (invoke world f args)) none-Reaches
        (wait_for-Stepwise (some t) (invoke world f args) (invoke-Stepwise f args))
