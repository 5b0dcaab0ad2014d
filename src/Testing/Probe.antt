-- ===== src/Testing/Probe.antt =====
-- `ResourceLifecycleProbe` of fastapi_core/testing.py: a resource that records what is done with it. Its
-- callables are actions here.
use fastapi_core.Prelude.{
  String, Bool, true, Option, none, some, List, [], ◌∷◌, ◌++◌, if◌then◌else◌,
}
use fastapi_core.Text.{◌<>◌}
use fastapi_core.Result.{ok, err, assertion_error}
use fastapi_core.Action.{Action}
use fastapi_core.Prelude.Int.{ℤ}
use fastapi_core.Resources.{ManagedResource, text}
use fastapi_core.Store.{Callable, Value, same_value}

pub record ResourceLifecycleProbe : Type 0 where
  pub value : Value
  pub health_result : Value
  pub events : List String

abbrev pub record_event : String → ResourceLifecycleProbe → ResourceLifecycleProbe
record_event event p = record p { events = p.events ++ event ∷ [] }

-- `managed_resource`, for the callables below, which are made anew for each name.
unfoldable pub managed_resource :
    Callable → Callable → Callable → String → Bool → Option ℤ → ManagedResource
managed_resource factory healthcheck close name required readiness_timeout_seconds = record {
  name = text name;
  options = record {
    factory = factory;
    healthcheck = some healthcheck;
    close = some close;
    required = required;
    readiness_timeout_seconds = readiness_timeout_seconds;
    redact_errors = true;
    health_result_adapter = none;
  };
}

unfoldable pub factory : String → Action ResourceLifecycleProbe Value
factory name p = (ok p.value, record_event ("create:" <> name) p)

unfoldable pub healthcheck : String → Value → Action ResourceLifecycleProbe Value
healthcheck name value p =
    if same_value value p.value
    then (ok p.health_result, record_event ("check:" <> name) p)
    else (err (assertion_error "managed resource probe received an unexpected value"), p)

unfoldable pub close : String → Value → Action ResourceLifecycleProbe (Unit {0})
close name value p =
    if same_value value p.value
    then (ok tt, record_event ("close:" <> name) p)
    else (err (assertion_error "managed resource probe received an unexpected value"), p)
