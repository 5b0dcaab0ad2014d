-- ===== src/Lifecycle.antt =====
-- fastapi_core/lifecycle.py: the lifespan of an application, with what runs inside it.
pub mod Cleanup
pub mod Steps
use fastapi_core.Prelude.{
  ℕ, String, Bool, true, false, not, ◌&&◌, Option, none, some, is_some, List, [], ◌∷◌,
  if◌then◌else◌,
}
use fastapi_core.Docmesh.{HealthCheckResult}
use fastapi_core.Result.{Exn, Result, ok, err, value_error, health_check_error, close_error}
use fastapi_core.Action.{Action, pure, raise, modify, try_finally, ◌>>=◌, ◌>>◌}
use fastapi_core.Store.{
  Value, View, flag, health_result, Event, check_runtime, close_runtime, assemble_runtime,
  enter_lifespan, serve, exit_lifespan, logged, Store, World, perform,
}
use fastapi_core.Config.{AppConfig}
use fastapi_core.Readiness.Run.{Runner}
use fastapi_core.Resources.{ManagedResource}
use fastapi_core.Resources.Running.{start, close, check_startup}
use fastapi_core.Runtime.{App, ServiceRuntime, RuntimePlan}
use fastapi_core.Runtime.Configuring.{configure_service_runtime}

-- What docmesh_py_core gives: the runtime of a plan, after a history, and the empty one.
pub record Assembler : Type 0 where
  pub assemble : List Event → RuntimePlan → Result ServiceRuntime
  pub empty : ServiceRuntime

-- The local state of `managed_lifespan`: the application, and the variable `app_runtime`.
pub record Frame : Type 0 where
  pub app : App
  pub app_runtime : Option ServiceRuntime

abbrev pub on_app {ℓ} : {A : Type ℓ} → Action App A → Action Frame A
on_app m f = let (r, app) = m f.app in (r, record f { app = app })

abbrev pub on_store {ℓ} : {A : Type ℓ} → Action Store A → Action Frame A
on_store m f = let (r, s) = m f.app.store in (r, record f { app = record f.app { store = s } })

-- The arguments of `build_lifespan`; `has_lifespan` says whether a `lifespan` is given.
pub record Lifespan : Type 0 where
  pub has_lifespan : Bool
  pub config : AppConfig
  pub runtime : Option ServiceRuntime
  pub runtime_plan : Option RuntimePlan
  pub resources : List ManagedResource
  pub require_auth_provider : Bool

abbrev result_of : Value → Option HealthCheckResult
result_of v = elim v.view [ health_result r ↦ some r | _ ↦ none ]

abbrev failed_result : Exn → Option HealthCheckResult → Option HealthCheckResult
failed_result (health_check_error s r) old = some r
failed_result e old = old

abbrev note_startup : Result Value → Action Frame (Unit {0})
note_startup (ok v) f =
    (ok tt, record f { app = record f.app { startup_healthcheck_result = result_of v } })
note_startup (err e) f = (
  err e,
  record f {
    app = record f.app {
      startup_healthcheck_result = failed_result e f.app.startup_healthcheck_result;
    };
  },
)

abbrev is_suppressed : Value → Bool
is_suppressed v = elim v.view [ flag b ↦ b | _ ↦ false ]

-- `__aexit__` may raise, and may suppress the exception that it is given.
abbrev leave : Result Value → Result Value → Result (Unit {0})
leave served (err e) = err e
leave (ok v) (ok left) = ok tt
leave (err e) (ok left) = if is_suppressed left then ok tt else err e

abbrev done : Result Value → Result (Unit {0})
done (ok v) = ok tt
done (err e) = err e

module _ (world : World) (runner : Runner) (docmesh : Assembler) where
  unfoldable pub check_runtime_on_startup : ServiceRuntime → Action Frame (Unit {0})
  unfolding perform
  check_runtime_on_startup runtime f =
      let (r, f') = on_store (perform world (check_runtime runtime.ident)) f in note_startup r f'

  unfoldable pub assemble : Option RuntimePlan → Action Frame ServiceRuntime
  assemble none f = (ok docmesh.empty, f)
  assemble (some plan) f =
      let history = f.app.store.history in
      (
        docmesh.assemble history plan,
        record f {
          app = record f.app {
            store = record f.app.store { history = assemble_runtime ∷ history };
          };
        },
      )

  -- `app_runtime = …`, and the configuration of a runtime that was assembled here
  unfoldable pub obtain_runtime : Lifespan → Action Frame (Unit {0})
  unfolding check_runtime_on_startup assemble
  obtain_runtime l = elim l.runtime [
    | none ↦ do
      runtime ← assemble l.runtime_plan
      modify (λ f. record f { app_runtime = some runtime })
      on_app (configure_service_runtime runtime)
    | some runtime ↦
        if l.config.startup_healthcheck then check_runtime_on_startup runtime else pure tt
  ]

  unfoldable pub check_auth_provider : Lifespan → Action Frame (Unit {0})
  check_auth_provider l f =
      if l.require_auth_provider && not (is_some f.app.auth_provider)
      then (err (value_error "auth router requires a configured auth provider"), f)
      else (ok tt, f)

  -- `async with lifespan(app) …: yield`; an exception at the `yield` is the result of serving.
  unfoldable pub serve_within : Bool → Action Frame (Unit {0})
  unfolding perform
  serve_within false f = let (r, f') = on_store (perform world serve) f in (done r, f')
  serve_within true f =
      let (entered, f1) = on_store (perform world enter_lifespan) f in
      elim entered [
        | err e ↦ (err e, f1)
        | ok _ ↦
            let (served, f2) = on_store (perform world serve) f1 in
            let (left, f3) = on_store (perform world exit_lifespan) f2 in (leave served left, f3)
      ]

  abbrev check_resources : Lifespan → Action Frame (Unit {0})
  check_resources l =
      if l.config.startup_healthcheck
      then on_store (
          check_startup world runner l.resources l.config.readiness_parallel
            l.config.readiness_overall_timeout_seconds)
      else pure tt

  unfoldable pub body : Value → Lifespan → Action Frame (Unit {0})
  unfolding obtain_runtime check_auth_provider serve_within
  body app_value l = do
    obtain_runtime l
    check_auth_provider l
    on_store (start world app_value l.resources)
    check_resources l
    serve_within l.has_lifespan

  abbrev pub log_close_failure : Result Value → Store → Store
  log_close_failure (err (close_error n)) s = record s {
    history = logged "service_runtime_close_failed" ∷ s.history;
  }
  log_close_failure r s = s

  -- `await app_runtime.close()`, if there is a runtime
  unfoldable pub close_app_runtime : Option ServiceRuntime → Action Store (Unit {0})
  unfolding perform
  close_app_runtime none s = (ok tt, s)
  close_app_runtime (some runtime) s =
      let (r, s') = perform world (close_runtime runtime.ident) s in
      (done r, log_close_failure r s')

  unfoldable pub cleanup : List ManagedResource → Action Frame (Unit {0})
  unfolding close_app_runtime
  cleanup resources f =
      on_store (try_finally (close world resources) (close_app_runtime f.app_runtime)) f

  -- The lifespan from its start to its end.
  unfoldable pub managed_lifespan : Value → Lifespan → Action App (Unit {0})
  unfolding body cleanup
  managed_lifespan app_value l app =
      let (r, f) =
        try_finally (body app_value l) (cleanup l.resources)
          (record { app = app; app_runtime = l.runtime }) in
      (r, f.app)
