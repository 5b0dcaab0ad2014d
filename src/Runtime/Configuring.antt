-- ===== src/Runtime/Configuring.antt =====
-- `configure_service_runtime`, step by step.
use fastapi_core.Prelude.{some, List, [], ◌∷◌}
use fastapi_core.Result.{Result, ok, err}
use fastapi_core.Action.{Action, pure, lift, gets, modify, ◌>>=◌, ◌>>◌}
use fastapi_core.Store.{ReadinessCheckSpec, ReadinessRegistry}
use fastapi_core.Readiness.{register}
use fastapi_core.Runtime.{
  App, ServiceRuntime, runtime_specs, missing_error, duplicate_error, keycloak_provider,
}

abbrev pub with_registry : App → ReadinessRegistry → App
with_registry app registry = record app { store = record app.store { readiness = registry } }

abbrev keep_registry : Result ReadinessRegistry → Action App (Unit {0})
keep_registry (ok registry) app = (ok tt, with_registry app registry)
keep_registry (err e) app = (err e, app)

-- `readiness_registry.register(spec)`
abbrev pub register_spec : ReadinessCheckSpec → Action App (Unit {0})
register_spec spec app = keep_registry (register spec app.store.readiness) app

unfoldable pub register_loop : List ReadinessCheckSpec → Action App (Unit {0})
register_loop [] = pure tt
register_loop (spec ∷ specs) = register_spec spec >> register_loop specs

abbrev pub set_runtime : ServiceRuntime → App → App
set_runtime runtime app = record app {
  service_runtime = some runtime;
  auth_provider = keycloak_provider (runtime.client "keycloak") app.auth_provider;
}

unfoldable pub configure_service_runtime : ServiceRuntime → Action App (Unit {0})
unfolding register_loop
configure_service_runtime runtime = do
  lift (missing_error runtime)
  registry ← gets (λ app. app.store.readiness)
  let specs = runtime_specs runtime runtime.checks
  lift (duplicate_error specs registry)
  register_loop specs
  modify (set_runtime runtime)
