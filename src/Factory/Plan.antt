-- ===== src/Factory/Plan.antt =====
-- What `create_app` of fastapi_core/factory.py is given and makes, and its first part, up to the
-- validations.
use fastapi_core.Prelude.{
  ℕ, String, Bool, not, ◌&&◌, Option, none, some, is_some, List, [], ◌∷◌, ◌++◌, is_empty,
  if◌then◌else◌,
}
use fastapi_core.Dict.{Dict}
use fastapi_core.Result.{Result, ok, err, value_error, ◌>>=◌, ◌>>◌}
use fastapi_core.Config.{AppConfig}
use fastapi_core.Resources.{Resource, ResourceRegistry}
use fastapi_core.Runtime.{RuntimePlan, build_runtime_plan, ServiceRuntime, AuthProvider, App}
use fastapi_core.Lifecycle.{Lifespan}
use fastapi_core.Transport.{TransportPolicy, Definition, resolve}
use fastapi_core.Http.{ExceptionMappingTable, Classes}
use fastapi_core.Http.Handlers.{HttpApp}
use fastapi_core.Factory.{
  Router, ErrorMapperSpec, DomainModule, Flattened, flatten_modules, validate_routes,
  validate_extension_names, validate_error_mappers, diagnose_auth_configuration,
}

pub record Arguments : Type 0 where
  pub config : AppConfig
  pub runtime : Option ServiceRuntime
  pub has_lifespan : Bool
  pub include_auth_router : Bool
  pub routers : List Router
  pub modules : List DomainModule
  pub resources : List Resource
  pub error_mappers : List ErrorMapperSpec
  pub error_renderer : Option ℕ
  pub auth_provider : Option AuthProvider
  pub transport_policy : Option TransportPolicy
  pub error_mapping_table : Option ExceptionMappingTable

-- What the program is handed: `Service.parse`, `diagnose_services`, the classes, `str.upper`, and the
-- two routers of its own.
pub record Environment : Type 0 where
  pub parse : String → Result String
  pub diagnose : RuntimePlan → Bool
  pub classes : Classes
  pub upper : String → String
  pub health_router : Router
  pub auth_router : Router

pub data Middleware : Type 0 where
  cors access_log correlation_id : Middleware

-- One call of `include_router`: the router, with its dependencies and responses.
pub record Included : Type 0 where
  pub router : Router
  pub dependencies : List ℕ
  pub responses : Dict ℕ Definition

pub record Application : Type 0 where
  pub app : App
  pub http : HttpApp
  pub resource_registry : ResourceRegistry
  pub domain_modules : List DomainModule
  pub lifespan : Lifespan
  pub transport_policy : TransportPolicy
  -- the innermost first
  pub middleware : List Middleware
  pub included : List Included

-- What the first part of `create_app` finds.
pub record Plan : Type 0 where
  pub runtime_plan : Option RuntimePlan
  pub flattened : Flattened
  pub base_transport_policy : TransportPolicy

abbrev optional {ℓ} : {A : Type ℓ} → Result A → Result (Option A)
optional (ok a) = ok (some a)
optional (err e) = err e

abbrev pub module_routers : List DomainModule → List Router
module_routers [] = []
module_routers (m ∷ ms) = m.routers ++ module_routers ms

module _ (environment : Environment) where
  unfoldable pub plan_runtime : Arguments → Result (Option RuntimePlan)
  plan_runtime a =
      if not (is_some a.runtime) && not (is_empty a.config.enabled_services)
      then optional (build_runtime_plan environment.parse a.config)
      else ok none

  abbrev diagnose_plan : AppConfig → Option RuntimePlan → Result (Unit {0})
  diagnose_plan config none =
      err (value_error "auth router requires the keycloak service to be enabled")
  diagnose_plan config (some plan) = diagnose_auth_configuration environment.diagnose config plan

  unfoldable pub check_auth : Arguments → Option RuntimePlan → Result (Unit {0})
  check_auth a plan =
      if a.include_auth_router && not (is_some a.auth_provider) && not (is_some a.runtime)
      then diagnose_plan a.config plan
      else ok tt

  abbrev pub all_routers : Arguments → List Router
  all_routers a =
      environment.health_router
        ∷ (if a.include_auth_router then environment.auth_router ∷ [] else [])
      ++ a.routers
      ++ module_routers a.modules

  abbrev pub all_resources : Arguments → Plan → List Resource
  all_resources a plan = a.resources ++ plan.flattened.resources

  abbrev pub all_mappers : Arguments → Plan → List ErrorMapperSpec
  all_mappers a plan = a.error_mappers ++ plan.flattened.error_mappers

  -- Up to the calls of the validations.
  unfoldable pub prepare : Arguments → Result Plan
  unfolding plan_runtime check_auth
  prepare a = do
    runtime_plan ← plan_runtime a
    check_auth a runtime_plan
    flattened ← flatten_modules a.modules
    base ← resolve none a.transport_policy
    ok (record { runtime_plan = runtime_plan; flattened = flattened; base_transport_policy = base })

  unfoldable pub validate_all : Arguments → Plan → Result (Unit {0})
  validate_all a plan =
      validate_routes (all_routers a)
      >> validate_extension_names (all_resources a plan) plan.flattened.readiness_checks a.runtime
          plan.runtime_plan
      >> validate_error_mappers environment.classes (all_mappers a plan)
