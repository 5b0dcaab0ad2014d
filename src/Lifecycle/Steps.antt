-- ===== src/Lifecycle/Steps.antt =====
-- The lifespan of an application is a sequence of the steps that tasks take on its store.
use mathlib.Core.Path.{subst}
use fastapi_core.Prelude.{
  String, string_eq, Bool, true, false, not, ◌&&◌, List, [], ◌∷◌, map, subset, ◌≡◌, refl,
  Bool-cases, Option-cases, Option, none, some, is_some, inl, inr,
}
use fastapi_core.Result.{Result, ok, err, close_error, Result-cases}
use fastapi_core.Action.{Action, pure, modify, ◌>>◌}
use fastapi_core.Store.{
  Value, Event, check_runtime, close_runtime, assemble_runtime, enter_lifespan, serve,
  exit_lifespan, logged, ReadinessCheckSpec, Store, World, perform,
}
use fastapi_core.Readiness.{register}
use fastapi_core.Readiness.Run.{Runner}
use fastapi_core.Resources.{resource_name}
use fastapi_core.Resources.Running.{registered, start, close}
use fastapi_core.Resources.Steps.{registers, take, Reaches}
use fastapi_core.Resources.Steps.Stepwise.{
  StepwiseOn, none-Reaches, step-Reaches, then-Reaches, bind-StepwiseOn, if-StepwiseOn,
  perform-Stepwise,
}
use fastapi_core.Resources.Steps.Interleaved.{
  start-Stepwise, close-Stepwise, RunsChecks, check_startup-Stepwise,
}
use fastapi_core.Runtime.{
  App, ServiceRuntime, RuntimePlan, runtime_specs, missing_error, duplicate_error,
}
use fastapi_core.Runtime.Configuring.{register_spec, register_loop, configure_service_runtime}
use fastapi_core.Lifecycle.{
  Assembler, Frame, on_app, on_store, Lifespan, note_startup, check_runtime_on_startup, assemble,
  obtain_runtime, check_auth_provider, serve_within, check_resources, body, close_app_runtime,
  log_close_failure, cleanup, managed_lifespan,
}

module _ (world : World) (names : List String) where
  abbrev AppStepwise {ℓ} : {A : Type ℓ} → Action App A → Type 0
  AppStepwise m = StepwiseOn world names (λ (a : App). a.store) m

  register_spec-registered :
      (spec : ReadinessCheckSpec) (app : App)
      → (registered spec app.store).1 ≡ (register_spec spec app).1.store
  register_spec-registered spec app = elim (Result-cases (register spec app.store.readiness)) [
    | inl (r, done) ↦ rw done refl
    | inr (e, failed) ↦ rw failed refl
  ]

  register_spec-AppStepwise : (spec : ReadinessCheckSpec) → AppStepwise (register_spec spec)
  unfolding take
  register_spec-AppStepwise spec app =
      subst (Reaches world names app.store) (register_spec-registered spec app)
        (step-Reaches world names (registers spec) app.store refl)

  register_loop-AppStepwise : (specs : List ReadinessCheckSpec) → AppStepwise (register_loop specs)
  unfolding register_loop
  register_loop-AppStepwise [] = λ app. none-Reaches world names app.store
  register_loop-AppStepwise (spec ∷ specs) =
      bind-StepwiseOn world names (λ (a : App). a.store) (register_spec spec)
        (λ _. register_loop specs) (register_spec-AppStepwise spec)
        (λ _. register_loop-AppStepwise specs)

  configure_service_runtime-AppStepwise :
      (runtime : ServiceRuntime) → AppStepwise (configure_service_runtime runtime)
  unfolding configure_service_runtime
  configure_service_runtime-AppStepwise runtime app =
      let specs = runtime_specs runtime runtime.checks in
      let looped = register_loop-AppStepwise specs app in
      elim (Result-cases (missing_error runtime)) [
        | inr (e, missing) ↦ rw missing (none-Reaches world names app.store)
        | inl (_, complete) ↦ elim (Result-cases (duplicate_error specs app.store.readiness)) [
          | inr (e, duplicate) ↦ rw (complete, duplicate) (none-Reaches world names app.store)
          | inl (_, fresh) ↦ elim (Result-cases (register_loop specs app).0) [
            | inl (_, done) ↦ rw (complete, fresh, done) looped
            | inr (e, failed) ↦ rw (complete, fresh, failed) looped
          ]
        ]
      ]

  abbrev store_of : Frame → Store
  store_of f = f.app.store

  abbrev LifespanStepwise {ℓ} : {A : Type ℓ} → Action Frame A → Type 0
  LifespanStepwise m = StepwiseOn world names store_of m

  none-LifespanStepwise : (f : Frame) → Reaches world names f.app.store f.app.store
  none-LifespanStepwise f = none-Reaches world names f.app.store

  asks-LifespanStepwise : (event : Event) → LifespanStepwise (on_store (perform world event))
  asks-LifespanStepwise event f = perform-Stepwise world names event f.app.store

  module _ (runner : Runner) (docmesh : Assembler) where
    check_runtime_on_startup-Stepwise :
        (runtime : ServiceRuntime)
        → LifespanStepwise (check_runtime_on_startup world runner docmesh runtime)
    unfolding check_runtime_on_startup perform
    check_runtime_on_startup-Stepwise runtime f =
        noted (perform world (check_runtime runtime.ident) f.app.store).0
      where
        noted :
            (r : Result Value)
            → Reaches world names f.app.store
                (note_startup r
                  (on_store (perform world (check_runtime runtime.ident)) f).1).1.app.store
        noted (ok v) = asks-LifespanStepwise (check_runtime runtime.ident) f
        noted (err e) = asks-LifespanStepwise (check_runtime runtime.ident) f

    assemble-Stepwise :
        (plan : Option RuntimePlan) → LifespanStepwise (assemble world runner docmesh plan)
    unfolding assemble perform
    assemble-Stepwise none f = none-LifespanStepwise f
    assemble-Stepwise (some plan) f = asks-LifespanStepwise assemble_runtime f

    obtain_runtime-Stepwise :
        (l : Lifespan) → LifespanStepwise (obtain_runtime world runner docmesh l)
    unfolding obtain_runtime
    obtain_runtime-Stepwise l f = elim (Option-cases l.runtime) [
      | inr (runtime, given) ↦ rw given (
          if-StepwiseOn world names store_of l.config.startup_healthcheck
            (check_runtime_on_startup world runner docmesh runtime) (pure tt)
            (check_runtime_on_startup-Stepwise runtime) none-LifespanStepwise f)
      | inl missing ↦
          let set : ServiceRuntime → Action Frame (Unit {0}) =
            λ runtime. modify (λ f. record f { app_runtime = some runtime }) in
          rw missing (
            bind-StepwiseOn world names store_of (assemble world runner docmesh l.runtime_plan)
              (λ runtime. set runtime >> on_app (configure_service_runtime runtime))
              (assemble-Stepwise l.runtime_plan)
              (λ runtime f'. configure_service_runtime-AppStepwise runtime f'.app) f)
    ]

    check_auth_provider-Stepwise :
        (l : Lifespan) → LifespanStepwise (check_auth_provider world runner docmesh l)
    unfolding check_auth_provider
    check_auth_provider-Stepwise l f =
        elim (Bool-cases (l.require_auth_provider && not (is_some f.app.auth_provider))) [
          | inl missing ↦ rw missing (none-LifespanStepwise f)
          | inr there ↦ rw there (none-LifespanStepwise f)
        ]

    serve_within-Stepwise : (b : Bool) → LifespanStepwise (serve_within world runner docmesh b)
    unfolding serve_within perform
    serve_within-Stepwise false f = asks-LifespanStepwise serve f
    serve_within-Stepwise true f = elim (Result-cases (world f.app.store.history enter_lifespan)) [
      | inr (e, failed) ↦ rw failed (asks-LifespanStepwise enter_lifespan f)
      | inl (v, entered) ↦
          let f1 = (on_store (perform world enter_lifespan) f).1 in
          let f2 = (on_store (perform world serve) f1).1 in
          let f3 = (on_store (perform world exit_lifespan) f2).1 in
          rw entered (
            then-Reaches world names f.app.store f1.app.store f3.app.store
              (asks-LifespanStepwise enter_lifespan f)
              (then-Reaches world names f1.app.store f2.app.store f3.app.store
                (asks-LifespanStepwise serve f1) (asks-LifespanStepwise exit_lifespan f2)))
    ]

    close_app_runtime-Stepwise :
        (runtime : Option ServiceRuntime) (s : Store)
        → Reaches world names s (close_app_runtime world runner docmesh runtime s).1
    unfolding close_app_runtime perform
    close_app_runtime-Stepwise none s = none-Reaches world names s
    close_app_runtime-Stepwise (some runtime) s =
        logged_too (world s.history (close_runtime runtime.ident))
      where
        s' : Store
        s' = (perform world (close_runtime runtime.ident) s).1

        asked : Reaches world names s s'
        asked = perform-Stepwise world names (close_runtime runtime.ident) s

        logged_too :
            (r : Result Value) → Reaches world names s (log_close_failure world runner docmesh r s')
        logged_too (ok v) = asked
        logged_too (err (close_error n)) =
            then-Reaches world names s s'
              (perform world (logged "service_runtime_close_failed") s').1 asked
              (perform-Stepwise world names (logged "service_runtime_close_failed") s')
        logged_too (err e) = asked

    module _ (only : RunsChecks world names runner) (app_value : Value) (l : Lifespan)
        (own : subset (map resource_name l.resources) names ≡ true) where
      body-Stepwise : LifespanStepwise (body world runner docmesh app_value l)
      unfolding body
      body-Stepwise =
          bind-StepwiseOn world names store_of (obtain_runtime world runner docmesh l) _
            (obtain_runtime-Stepwise l)
            (λ _.
              bind-StepwiseOn world names store_of (check_auth_provider world runner docmesh l) _
                (check_auth_provider-Stepwise l)
                (λ _.
                  bind-StepwiseOn world names store_of
                    (on_store (start world app_value l.resources)) _
                    (λ f. start-Stepwise world names app_value l.resources own f.app.store)
                    (λ _.
                      bind-StepwiseOn world names store_of (check_resources world runner docmesh l)
                        (λ _. serve_within world runner docmesh l.has_lifespan)
                        (if-StepwiseOn world names store_of l.config.startup_healthcheck _ (pure tt)
                          (λ f.
                            check_startup-Stepwise world names runner only l.resources _ _
                              f.app.store)
                          none-LifespanStepwise)
                        (λ _. serve_within-Stepwise l.has_lifespan))))

      pub managed_lifespan-Reaches :
          (app : App)
          → Reaches world names app.store
              (managed_lifespan world runner docmesh app_value l app).1.store
      unfolding managed_lifespan cleanup
      managed_lifespan-Reaches app =
          let started : Frame = record { app = app; app_runtime = l.runtime } in
          let f = (body world runner docmesh app_value l started).1 in
          let closed = (close world l.resources f.app.store).1 in
          then-Reaches world names app.store f.app.store _ (body-Stepwise started) (
            then-Reaches world names f.app.store closed _
              (close-Stepwise world names l.resources f.app.store)
              (close_app_runtime-Stepwise f.app_runtime closed))
