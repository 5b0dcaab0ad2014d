-- ===== src/Runtime.antt =====
-- fastapi_core/runtime.py, and the application state that it writes. `ServiceRuntime`, the services
-- and their clients are docmesh_py_core's: what the program reads of them are the fields below.
pub mod Plan
pub mod Configuring
pub mod Atomic
use fastapi_core.Prelude.{
  ℕ, String, string_eq, Bool, true, false, not, ◌&&◌, Option, none, some, List, [], ◌∷◌, map,
  filter, contains, is_empty, dedupe, if◌then◌else◌,
}
use fastapi_core.Prelude.Int.{ℤ}
use fastapi_core.Text.{join, sorted, ◌<>◌}
use fastapi_core.Dict.{Dict, keys, has}
use fastapi_core.Docmesh.{HealthCheckResult}
use fastapi_core.Result.{Result, ok, err, value_error, attribute_error, raise_if, ◌>>=◌, ◌>>◌}
use fastapi_core.Store.{Callable, Check, plain, ReadinessCheckSpec, ReadinessRegistry, Store}
use fastapi_core.Config.{AppConfig, StartupFailureMode}

pub record HealthcheckPolicy : Type 0 where
  pub on_startup : Bool
  pub parallel : Bool
  pub timeout_seconds : Option ℤ
  pub overall_timeout_seconds : Option ℤ
  pub failure_mode : StartupFailureMode
  pub attempts : ℕ
  pub retry_delay_seconds : ℤ

unfoldable pub build_healthcheck_policy : AppConfig → HealthcheckPolicy
build_healthcheck_policy config = record {
  on_startup = config.startup_healthcheck;
  parallel = config.readiness_parallel;
  timeout_seconds = config.readiness_timeout_seconds;
  overall_timeout_seconds = config.readiness_overall_timeout_seconds;
  failure_mode = config.startup_failure_mode;
  attempts = config.startup_healthcheck_attempts;
  retry_delay_seconds = config.startup_healthcheck_retry_delay_seconds;
}

-- A service by its value, and whether it is required.
pub record RuntimePlan : Type 0 where
  pub services : List (String × Bool)
  pub one_of : List (List String)
  pub healthcheck : HealthcheckPolicy

-- `Service.parse` is docmesh_config's.
module _ (parse : String → Result String) where
  unfoldable pub parse_all : List String → Result (List String)
  parse_all [] = ok []
  parse_all (n ∷ ns) = do service ← parse n; services ← parse_all ns; ok (service ∷ services)

  unfoldable pub plan_services : List String → List String → Result (List (String × Bool))
  plan_services required [] = ok []
  plan_services required (n ∷ ns) = do
    service ← parse n
    services ← plan_services required ns
    ok ((service, contains n required) ∷ services)

  unfoldable pub parse_groups : List (List String) → Result (List (List String))
  unfolding parse_all
  parse_groups [] = ok []
  parse_groups (g ∷ gs) = do group ← parse_all g; groups ← parse_groups gs; ok (group ∷ groups)

  unfoldable pub build_runtime_plan : AppConfig → Result RuntimePlan
  unfolding plan_services parse_groups build_healthcheck_policy
  build_runtime_plan config = do
    services ← plan_services config.required_services config.enabled_services
    one_of ← parse_groups config.service_alternatives
    ok (record {
      services = services;
      one_of = one_of;
      healthcheck = build_healthcheck_policy config;
    })

-- An object with the names of its classes, for `isinstance`.
pub record Object : Type 0 where
  pub ident : ℕ
  pub classes : List String

abbrev pub is_instance : Object → String → Bool
is_instance o class_name = contains class_name o.classes

-- A client is a `ServiceClientWrapper` of an object, or an object itself.
pub data Client : Type 0 where
  wrapper : Object → Client
  bare : Object → Client

pub record ServiceRuntime : Type 0 where
  pub ident : ℕ
  pub required_services : List String
  pub selected_services : List String
  pub checks : Dict String Callable
  pub client : String → Option Client

pub record AuthProvider : Type 0 where
  pub provider : Object
  pub allowed_algorithms : List String

-- `app.state`, as far as the runtime and the dependencies use it. `startup_healthcheck_result` is an
-- attribute of the runtime.
pub record App : Type 0 where
  pub store : Store
  pub service_runtime : Option ServiceRuntime
  pub startup_healthcheck_result : Option HealthCheckResult
  pub auth_provider : Option AuthProvider

unfoldable pub configure_keycloak_provider : Object → AuthProvider
configure_keycloak_provider o = record { provider = o; allowed_algorithms = "RS256" ∷ [] }

unfoldable pub runtime_specs : ServiceRuntime → Dict String Callable → List ReadinessCheckSpec
runtime_specs runtime [] = []
runtime_specs runtime ((service, check) ∷ checks) =
    record {
      name = service;
      check = plain check;
      required = contains service runtime.required_services;
      timeout_seconds = none;
      redact_errors = true;
      health_result_adapter = none;
    }
    ∷ runtime_specs runtime checks

abbrev pub spec_names : List ReadinessCheckSpec → List String
spec_names specs = map (λ s. s.name) specs

abbrev pub first_of_sorted : List String → String
first_of_sorted [] = ""
first_of_sorted (n ∷ ns) = n

unfoldable pub missing_checks : ServiceRuntime → List String
missing_checks runtime =
    filter (λ s. not (contains s (keys runtime.checks))) runtime.selected_services

unfoldable pub duplicate_names : List ReadinessCheckSpec → ReadinessRegistry → List String
duplicate_names specs registry = filter (λ n. has n registry.specs) (spec_names specs)

abbrev pub missing_error : ServiceRuntime → Result (Unit {0})
missing_error runtime =
    let missing = missing_checks runtime in
    raise_if (not (is_empty missing)) (
      attribute_error
        ("Runtime services do not expose callable checks: " <> join ", " (sorted missing)))

abbrev pub duplicate_error : List ReadinessCheckSpec → ReadinessRegistry → Result (Unit {0})
duplicate_error specs registry =
    let duplicates = duplicate_names specs registry in
    raise_if (not (is_empty duplicates)) (
      value_error
        ("readiness check '" <> first_of_sorted (sorted duplicates) <> "' is already registered"))

-- The provider of the keycloak client, if that is a wrapper of one.
abbrev pub keycloak_provider : Option Client → Option AuthProvider → Option AuthProvider
keycloak_provider (some (wrapper o)) old =
    if is_instance o "KeycloakAuthService" then some (configure_keycloak_provider o) else old
keycloak_provider _ old = old
