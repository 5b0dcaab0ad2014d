-- ===== src/Readiness/Run.antt =====
-- `ReadinessRegistry.check` and `_invoke_check`. docmesh_py_core's `async_check_all_services`, which
-- runs the checks, is the parameter `Runner`.
use fastapi_core.Prelude.{
  String, Bool, true, false, not, ◌&&◌, Option, none, some, List, [], ◌∷◌, map, find, filter,
  contains, if◌then◌else◌, get_or, string_eq,
}
use fastapi_core.Prelude.Int.{ℤ}
use fastapi_core.Dict.{Dict, keys, put}
use fastapi_core.Docmesh.{ServiceHealthStatus, HealthCheckResult}
use fastapi_core.Result.{Exn, Result, ok, err, runtime_error, health_check_error}
use fastapi_core.Action.{Action, pure, raise, ◌>>=◌}
use fastapi_core.Store.{
  Callable, Value, View, flag, health_result, health_status, outcome, Check, plain, partial,
  ReadinessCheckSpec, Store, World, call, perform,
}
use fastapi_core.Invocation.{settle, invoke, wait_for}
use fastapi_core.Readiness.{or_seconds, structured_result, merge_structured_results}

-- What one call of `check` works on: the store, and its dictionary of structured results.
pub record Frame : Type 0 where
  pub store : Store
  pub structured : Dict String HealthCheckResult

abbrev pub on_store {ℓ} : {A : Type ℓ} → Action Store A → Action Frame A
on_store m f = let (r, s) = m f.store in (r, record f { store = s })

abbrev passed : Action Frame (Unit {0})
passed = pure tt

-- How the result of a check is read. Anything else counts as a success.
unfoldable pub interpret : String → Bool → View → Action Frame (Unit {0})
interpret name required (flag false) f = raise (runtime_error "readiness check returned False") f
interpret name required (health_result result) f =
    let nested = structured_result name result required in
    let f' = record f { structured = put name nested f.structured } in
    if nested.ok then passed f' else raise (runtime_error "structured readiness check failed") f'
interpret name required (health_status status) f =
    if status.ok
    then passed f
    else raise (runtime_error (get_or status.error "service health check failed")) f
interpret name required (outcome good error) f =
    if good then passed f else raise (runtime_error (get_or error "health outcome was not ok")) f
interpret name required _ f = passed f

module _ (world : World) where
  unfoldable pub invoke_check : Check → Option ℤ → Action Store Value
  unfolding invoke wait_for
  invoke_check (plain f) timeout = wait_for world timeout (invoke world f [])
  invoke_check (partial f args) timeout = wait_for world timeout (invoke world f args)

  unfoldable pub adapt : Option Callable → Value → Action Store Value
  unfolding perform settle
  adapt none result = pure result
  adapt (some adapter) result = do
    adapted ← perform world (call adapter (result ∷ []))
    settle world adapted

  -- The function that `check` builds for one spec.
  unfoldable pub run : Option ℤ → String → ReadinessCheckSpec → Action Frame (Unit {0})
  unfolding invoke_check adapt interpret
  run default name spec = do
    result ← on_store (invoke_check spec.check (or_seconds spec.timeout_seconds default))
    adapted ← on_store (adapt spec.health_result_adapter result)
    interpret name spec.required adapted.view

-- `async_check_all_services(checks, required_services, parallel, overall_timeout_seconds)`
abbrev pub Runner : Type 0
Runner =
    Dict String (Action Frame (Unit {0}))
    → List String
    → Bool
    → Option ℤ
    → Action Frame HealthCheckResult

-- `names is None or name in names`
abbrev pub is_selected : Option (List String) → String → Bool
is_selected none name = true
is_selected (some names) name = contains name names

abbrev pub select :
    Option (List String) → Dict String ReadinessCheckSpec → Dict String ReadinessCheckSpec
select names specs = filter (λ p. is_selected names p.0) specs

abbrev pub required_names : Dict String ReadinessCheckSpec → List String
required_names selected = keys (filter (λ p. p.1.required) selected)

abbrev pub is_failure : ServiceHealthStatus → Bool
is_failure s = s.required && not s.ok

-- The `except HealthCheckError` branch; `next` on no failure ends the coroutine by a RuntimeError.
unfoldable pub reraise : HealthCheckResult → Exn
reraise result = elim (find is_failure result.services) [
  | none ↦ runtime_error "coroutine raised StopIteration"
  | some failure ↦ health_check_error failure result
]

abbrev merged_exn : Exn → Dict String HealthCheckResult → Exn
merged_exn (health_check_error s result) structured =
    reraise (merge_structured_results result structured)
merged_exn e structured = e

unfoldable pub conclude :
    Result HealthCheckResult → Dict String HealthCheckResult → Result HealthCheckResult
unfolding reraise
conclude (ok result) structured = ok (merge_structured_results result structured)
conclude (err e) structured = err (merged_exn e structured)

abbrev pub checks_of :
    World → Option ℤ → Dict String ReadinessCheckSpec → Dict String (Action Frame (Unit {0}))
checks_of world default selected = map (λ p. (p.0, run world default p.0 p.1)) selected

unfoldable pub check :
    World → Runner → Option (List String) → Bool → Option ℤ → Action Store HealthCheckResult
unfolding conclude
check world runner names parallel overall s =
    let selected = select names s.readiness.specs in
    let (r, f) =
      runner (checks_of world s.readiness.default_timeout_seconds selected)
        (required_names selected) parallel overall (record { store = s; structured = [] }) in
    (conclude r f.structured, f.store)
