-- ===== src/Resources/Running.antt =====
-- The life of the registry's resources: `start`, `close` and `check_startup`.
use mathlib.Core.List.{reverse}
use fastapi_core.Prelude.{
  String, string_eq, Bool, false, ◌&&◌, Option, none, some, is_some, or_else, List, [], ◌∷◌, map,
  is_empty, filter, if◌then◌else◌,
}
use fastapi_core.Prelude.Int.{ℤ}
use fastapi_core.Dict.{get, put, remove}
use fastapi_core.Result.{Exn, Result, ok, err, noted, group, to_exns}
use fastapi_core.Action.{Action, pure, modify, try_except, ◌>>=◌, ◌>>◌}
use fastapi_core.Store.{
  Callable, Value, Check, partial, ReadinessCheckSpec, ReadinessRegistry, Store, World, same_value,
  same_callable,
}
use fastapi_core.Invocation.{invoke_resource}
use fastapi_core.Readiness.{register, unregister}
use fastapi_core.Readiness.Run.{Runner, check}
use fastapi_core.Resources.{ManagedResource, resource_name}

-- `self.instances[name] = value`
abbrev pub hold : String → Value → Action Store (Unit {0})
hold name value = modify (λ s. record s { instances = put name value s.instances })

abbrev pub check_spec : ManagedResource → Callable → Value → ReadinessCheckSpec
check_spec r healthcheck value = record {
  name = resource_name r;
  check = partial healthcheck (value ∷ []);
  required = r.required;
  timeout_seconds = r.readiness_timeout_seconds;
  redact_errors = r.redact_errors;
  health_result_adapter = r.health_result_adapter;
}

abbrev keep_registry : Result ReadinessRegistry → Action Store (Unit {0})
keep_registry (ok readiness) s = (ok tt, record s { readiness = readiness })
keep_registry (err e) s = (err e, s)

abbrev pub registered : ReadinessCheckSpec → Action Store (Unit {0})
registered spec s = keep_registry (register spec s.readiness) s

unfoldable pub register_for : ManagedResource → Value → Option Callable → Action Store (Unit {0})
register_for r value none s = (ok tt, s)
register_for r value (some healthcheck) s = registered (check_spec r healthcheck value) s

-- Whether the spec is the one that `start` registered for this resource and value.
abbrev pub is_bound_to : Option Callable → Value → Check → Bool
is_bound_to (some healthcheck) value (partial func (arg ∷ [])) =
    same_callable func healthcheck && same_value arg value
is_bound_to _ value _ = false

unfoldable pub drop_spec :
    String → Option Callable → Value → Option ReadinessCheckSpec → Store → Store
drop_spec name healthcheck value none s = s
drop_spec name healthcheck value (some spec) s =
    if is_bound_to healthcheck value spec.check
    then record s { readiness = unregister name s.readiness }
    else s

-- The `finally` branch of `close`
unfoldable pub unregister_check : ManagedResource → Value → Store → Store
unregister_check r value s =
    let name = resource_name r in drop_spec name r.healthcheck value (get name s.readiness.specs) s

abbrev failure_of : Result Value → List Exn → List Exn
failure_of (ok v) failures = failures
failure_of (err e) failures = e ∷ failures

abbrev with_args : Option Callable → List Value → Option (Callable × List Value)
with_args none args = none
with_args (some method) args = some (method, args)

-- What closes a value: the resource's `close` on it, or else its own `aclose`, or its own `close`.
unfoldable pub closer : ManagedResource → Value → Option (Callable × List Value)
closer r value =
    or_else (with_args r.close (value ∷ []))
      (or_else (with_args value.aclose []) (with_args value.close []))

abbrev pub shutdown : List Exn × Store → Result (Unit {0}) × Store
shutdown ([], s) = (ok tt, s)
shutdown (e ∷ es, s) = (err (group "managed resource shutdown failed" (to_exns (e ∷ es))), s)

abbrev pub with_note : Exn → Result (Unit {0}) → Result (Unit {0})
with_note e (ok _) = err e
with_note e (err c) = err (noted e "managed resource rollback failed: " c)

module _ (world : World) where
  unfoldable pub close_by : Option (Callable × List Value) → Value → Action Store Value
  close_by none value s = (ok value, s)
  close_by (some (method, args)) value s = invoke_resource world method args none s

  unfoldable pub close_resource : ManagedResource → Value → Action Store Value
  close_resource r value = close_by (closer r value) value

  -- One round of the loop of `close`, for a value that is held.
  unfoldable pub release : ManagedResource → Value → Action Store Value
  release r value s =
      let held = record s { instances = remove (resource_name r) s.instances } in
      let (result, s') = close_resource r value held in (result, unregister_check r value s')

  -- The loop of `close`: the failures, in order. The value is looked up before each round.
  unfoldable pub close_loop : List ManagedResource → Store → List Exn × Store
  close_loop [] s = ([], s)
  close_loop (r ∷ rs) s = elim (get (resource_name r) s.instances) [
    | none ↦ close_loop rs s
    | some value ↦
        let (result, s') = release r value s in
        let (failures, s'') = close_loop rs s' in (failure_of result failures, s'')
  ]

  unfoldable pub close : List ManagedResource → Action Store (Unit {0})
  close resources s = shutdown (close_loop (reverse resources) s)

  -- One round of the loop of `start`.
  unfoldable pub create : Value → ManagedResource → Action Store (Unit {0})
  create app r = do
    value ← invoke_resource world r.factory (app ∷ []) none
    hold (resource_name r) value
    register_for r value r.healthcheck

  unfoldable pub start_loop : Value → List ManagedResource → Action Store (Unit {0})
  start_loop app [] = pure tt
  start_loop app (r ∷ rs) = create app r >> start_loop app rs

  -- The `except` branch of `start`
  abbrev rollback : List ManagedResource → Exn → Action Store (Unit {0})
  rollback resources e s = let (r, s') = close resources s in (with_note e r, s')

  unfoldable pub start : Value → List ManagedResource → Action Store (Unit {0})
  start app resources = try_except (start_loop app resources) (rollback resources)

  abbrev pub startup_names : List ManagedResource → List String
  startup_names resources =
      map resource_name (filter (λ r. is_some r.healthcheck && r.required) resources)

  unfoldable pub check_startup :
      Runner → List ManagedResource → Bool → Option ℤ → Action Store (Unit {0})
  check_startup runner resources parallel overall =
      let names = startup_names resources in
      if is_empty names
      then pure tt
      else (check world runner (some names) parallel overall >>= λ _. pure tt)
