-- ===== src/Resources/Steps/Interleaved.antt =====
-- The operations of the code are sequences of the steps.
use mathlib.Core.List.{reverse}
use fastapi_core.Prelude.{
  String, string_eq, Bool, true, false, List, [], ◌∷◌, map, All, contains, subset, is_empty, ◌≡◌,
  refl, arith, Option, none, some, inl, inr, Option-cases, Bool-cases,
}
use fastapi_core.Prelude.Int.{ℤ}
use fastapi_core.Dict.{Dict, get}
use fastapi_core.Result.{Result-cases}
use fastapi_core.Action.{Action, pure, ◌>>=◌, ◌>>◌}
use fastapi_core.Store.{
  Callable, Value, View, flag, health_result, health_status, outcome, call, Check, plain, partial,
  ReadinessCheckSpec, Store, World, perform,
}
use fastapi_core.Invocation.{settle, invoke, invoke_resource}
use fastapi_core.Readiness.{or_seconds, structured_result}
use fastapi_core.Readiness.Run.{
  Frame, on_store, interpret, invoke_check, adapt, run, Runner, select, required_names, checks_of,
  check,
}
use fastapi_core.Resources.{ManagedResource, resource_name}
use fastapi_core.Resources.Running.{
  closer, close_by, close_resource, release, close_loop, close, create, start_loop, start,
  check_startup, startup_names, hold, register_for,
}
use fastapi_core.Resources.Starting.{shutdown_state}
use fastapi_core.Resources.Steps.{holds, pops, unregisters_own, take, Reaches}
use fastapi_core.Resources.Steps.Stepwise.{
  Stepwise, none-Reaches, step-Reaches, then-Reaches, bind-Stepwise, StepwiseOn, bind-StepwiseOn,
  if-StepwiseOn, perform-Stepwise, settle-Stepwise, invoke-Stepwise, wait_for-Stepwise,
  invoke_resource-Stepwise,
}

module _ (world : World) (names : List String) where
  close_by-Stepwise :
      (o : Option (Callable × List Value)) (v : Value) → Stepwise world names (close_by world o v)
  unfolding close_by
  close_by-Stepwise none v = none-Reaches world names
  close_by-Stepwise (some (f, args)) v = invoke_resource-Stepwise world names f args none

  release-Stepwise : (r : ManagedResource) (v : Value) → Stepwise world names (release world r v)
  unfolding release close_resource take
  release-Stepwise r v s =
      let popped = take world (pops r) s in
      let closed = (close_by world (closer r v) v popped).1 in
      then-Reaches world names s popped (take world (unregisters_own r v) closed)
        (step-Reaches world names (pops r) s refl)
        (then-Reaches world names popped closed (take world (unregisters_own r v) closed)
          (close_by-Stepwise (closer r v) v popped)
          (step-Reaches world names (unregisters_own r v) closed refl))

  close_loop-Reaches :
      (rs : List ManagedResource) (s : Store) → Reaches world names s (close_loop world rs s).1
  unfolding close_loop
  close_loop-Reaches [] s = none-Reaches world names s
  close_loop-Reaches (r ∷ rs) s = elim (Option-cases (get (resource_name r) s.instances)) [
    | inl absent ↦ rw (absent, close_loop) (close_loop-Reaches rs s)
    | inr (v, held) ↦
        rw (held, close_loop)
          (then-Reaches world names s (release world r v s).1
            (close_loop world rs (release world r v s).1).1 (release-Stepwise r v s)
            (close_loop-Reaches rs (release world r v s).1))
  ]

  pub close-Stepwise : (rs : List ManagedResource) → Stepwise world names (close world rs)
  unfolding close
  close-Stepwise rs s = rw shutdown_state (close_loop-Reaches (reverse rs) s)

  create-Stepwise :
      (app : Value) (r : ManagedResource)
      → contains (resource_name r) names ≡ true
      → Stepwise world names (create world app r)
  unfolding create take
  create-Stepwise app r own =
      bind-Stepwise world names (invoke_resource world r.factory (app ∷ []) none)
        (λ value. hold (resource_name r) value >> register_for r value r.healthcheck)
        (invoke_resource-Stepwise world names r.factory (app ∷ []) none)
        (λ value s. step-Reaches world names (holds r value) s own)

  start_loop-Stepwise :
      (app : Value) (rs : List ManagedResource)
      → subset (map resource_name rs) names ≡ true
      → Stepwise world names (start_loop world app rs)
  unfolding start_loop
  start_loop-Stepwise app [] own = none-Reaches world names
  start_loop-Stepwise app (r ∷ rs) own =
      bind-Stepwise world names (create world app r) (λ _. start_loop world app rs)
        (create-Stepwise app r (ground arith)) (λ _. start_loop-Stepwise app rs (ground arith))

  pub start-Stepwise :
      (app : Value) (rs : List ManagedResource)
      → subset (map resource_name rs) names ≡ true
      → Stepwise world names (start world app rs)
  unfolding start
  start-Stepwise app rs own s =
      let looped = start_loop-Stepwise app rs own s in
      let t = (start_loop world app rs s).1 in
      elim (Result-cases (start_loop world app rs s).0) [
        | inl (_, done) ↦ rw done looped
        | inr (e, failed) ↦
            rw failed
              (then-Reaches world names s t (close world rs t).1 looped (close-Stepwise rs t))
      ]

  -- The same of an action on the frame of a check, whose store it is about.
  abbrev pub FrameStepwise {ℓ} : {A : Type ℓ} → Action Frame A → Type 0
  FrameStepwise m = StepwiseOn world names (λ (f : Frame). f.store) m

  interpret-FrameStepwise :
      (name : String) (required : Bool) (v : View) → FrameStepwise (interpret name required v)
  unfolding interpret
  interpret-FrameStepwise name required (flag true) f = none-Reaches world names f.store
  interpret-FrameStepwise name required (flag false) f = none-Reaches world names f.store
  interpret-FrameStepwise name required (health_result result) f =
      elim (Bool-cases (structured_result name result required).ok) [
        | inl good ↦ rw good (none-Reaches world names f.store)
        | inr bad ↦ rw bad (none-Reaches world names f.store)
      ]
  interpret-FrameStepwise name required (health_status status) f = elim (Bool-cases status.ok) [
    | inl good ↦ rw good (none-Reaches world names f.store)
    | inr bad ↦ rw bad (none-Reaches world names f.store)
  ]
  interpret-FrameStepwise name required (outcome true error) f = none-Reaches world names f.store
  interpret-FrameStepwise name required (outcome false error) f = none-Reaches world names f.store
  interpret-FrameStepwise name required _ f = none-Reaches world names f.store

  invoke_check-Stepwise :
      (c : Check) (timeout : Option ℤ) → Stepwise world names (invoke_check world c timeout)
  unfolding invoke_check
  invoke_check-Stepwise (plain f) timeout =
      wait_for-Stepwise world names timeout (invoke world f []) (invoke-Stepwise world names f [])
  invoke_check-Stepwise (partial f args) timeout =
      wait_for-Stepwise world names timeout (invoke world f args)
        (invoke-Stepwise world names f args)

  adapt-Stepwise :
      (adapter : Option Callable) (v : Value) → Stepwise world names (adapt world adapter v)
  unfolding adapt
  adapt-Stepwise none v = none-Reaches world names
  adapt-Stepwise (some adapter) v =
      bind-Stepwise world names (perform world (call adapter (v ∷ []))) (settle world)
        (perform-Stepwise world names (call adapter (v ∷ []))) (settle-Stepwise world names)

  run-FrameStepwise :
      (default : Option ℤ) (name : String) (spec : ReadinessCheckSpec)
      → FrameStepwise (run world default name spec)
  unfolding run
  run-FrameStepwise default name spec =
      bind-StepwiseOn world names (λ (f : Frame). f.store)
        (on_store (invoke_check world spec.check (or_seconds spec.timeout_seconds default))) _
        (λ f. invoke_check-Stepwise spec.check (or_seconds spec.timeout_seconds default) f.store)
        (λ result.
          bind-StepwiseOn world names (λ (f : Frame). f.store)
            (on_store (adapt world spec.health_result_adapter result)) _
            (λ f. adapt-Stepwise spec.health_result_adapter result f.store)
            (λ adapted. interpret-FrameStepwise name spec.required adapted.view))

  -- A runner that changes the store only by the checks that it is given.
  abbrev pub RunsChecks : Runner → Type 0
  RunsChecks runner =
      (checks : Dict String (Action Frame (Unit {0}))) (required : List String) (parallel : Bool)
      (overall : Option ℤ)
      → All (λ p. FrameStepwise p.1) checks
      → FrameStepwise (runner checks required parallel overall)

  checks_of-FrameStepwise :
      (default : Option ℤ) (specs : Dict String ReadinessCheckSpec)
      → All (λ p. FrameStepwise p.1) (checks_of world default specs)
  checks_of-FrameStepwise default [] = tt
  checks_of-FrameStepwise default ((name, spec) ∷ specs) =
      (run-FrameStepwise default name spec, checks_of-FrameStepwise default specs)

  module _ (runner : Runner) (only : RunsChecks runner) where
    pub check-Stepwise :
        (selected : Option (List String)) (parallel : Bool) (overall : Option ℤ)
        → Stepwise world names (check world runner selected parallel overall)
    unfolding check
    check-Stepwise selected parallel overall s =
        only
          (checks_of world s.readiness.default_timeout_seconds (select selected s.readiness.specs))
          (required_names (select selected s.readiness.specs)) parallel overall
          (checks_of-FrameStepwise s.readiness.default_timeout_seconds
            (select selected s.readiness.specs))
          (record { store = s; structured = [] })

    pub check_startup-Stepwise :
        (rs : List ManagedResource) (parallel : Bool) (overall : Option ℤ)
        → Stepwise world names (check_startup world runner rs parallel overall)
    unfolding check_startup
    check_startup-Stepwise rs parallel overall =
        if-StepwiseOn world names (λ s. s) (is_empty (startup_names world rs)) (pure tt)
          (check world runner (some (startup_names world rs)) parallel overall >>= λ _. pure tt)
          (none-Reaches world names)
          (bind-Stepwise world names
            (check world runner (some (startup_names world rs)) parallel overall) (λ _. pure tt)
            (check-Stepwise (some (startup_names world rs)) parallel overall)
            (λ _. none-Reaches world names))
