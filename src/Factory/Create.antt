-- ===== src/Factory/Create.antt =====
-- `create_app` of fastapi_core/factory.py. FastAPI's own objects are left to it: what the program tells
-- them is in the result. Logging, OAuth2 and the OpenAPI of the application are not in it.
pub mod Valid
pub mod Parts
pub mod Sound
pub mod Mappers
pub mod Inclusion
pub mod Checks
use fastapi_core.Prelude.{
  ℕ, String, Bool, true, false, not, ◌&&◌, Option, none, some, is_some, or_else, get_or, List, [],
  ◌∷◌, ◌++◌, map, is_empty, if◌then◌else◌,
}
use fastapi_core.Dict.{Dict}
use fastapi_core.Result.{Exn, Result, ok, err, value_error, raise_if, ◌>>=◌, ◌>>◌}
use fastapi_core.Store.{ReadinessCheckSpec, ReadinessRegistry}
use fastapi_core.Config.{AppConfig}
use fastapi_core.Readiness.{register}
use fastapi_core.Resources.{Resource, ResourceRegistry, reserved_resource_names, make_registry}
use fastapi_core.Runtime.{RuntimePlan, build_runtime_plan, ServiceRuntime, AuthProvider, App}
use fastapi_core.Runtime.Configuring.{configure_service_runtime}
use fastapi_core.Lifecycle.{Lifespan}
use fastapi_core.Transport.{TransportPolicy, Definition, resolve, response_definitions}
use fastapi_core.Http.{ExceptionMappingTable, Classes}
use fastapi_core.Http.Handlers.{HttpApp, install_problem_handlers, register_error_mapper}
use fastapi_core.Factory.{
  Router, ErrorMapperSpec, DomainModule, Flattened, flatten_modules, validate_routes,
  validate_extension_names, validate_error_mappers, diagnose_auth_configuration,
  record_transport_policy,
}
use fastapi_core.Factory.Plan.{
  Arguments, Environment, Middleware, cors, access_log, correlation_id, Included, Application, Plan,
  all_resources, all_mappers, prepare, validate_all,
}

module _ (environment : Environment) where
  unfoldable pub register_checks :
      List ReadinessCheckSpec → ReadinessRegistry → Result ReadinessRegistry
  register_checks [] registry = ok registry
  register_checks (spec ∷ specs) registry = do
    registry' ← register spec registry
    register_checks specs registry'

  abbrev pub new_app : Arguments → ReadinessRegistry → App
  new_app a registry = record {
    store = record { history = []; readiness = registry; instances = [] };
    service_runtime = a.runtime;
    startup_healthcheck_result = none;
    auth_provider = none;
  }

  abbrev configured : Result (Unit {0}) × App → Result App
  configured (ok v, app) = ok app
  configured (err e, app) = err e

  abbrev pub configure : Option ServiceRuntime → App → Result App
  configure none app = ok app
  configure (some runtime) app = configured (configure_service_runtime runtime app)

  -- The application with its runtime and its authentication provider.
  unfoldable pub equip : Arguments → App → Result App
  equip a app = do
    app' ← configure a.runtime app
    let app'' = record app' { auth_provider = or_else a.auth_provider app'.auth_provider }
    raise_if (a.include_auth_router && is_some a.runtime && not (is_some app''.auth_provider))
        (value_error "auth router requires a configured auth provider")
    ok app''

  unfoldable pub register_mappers : List ErrorMapperSpec → HttpApp → Result HttpApp
  register_mappers [] http = ok http
  register_mappers (s ∷ specs) http = do
    http' ← register_error_mapper environment.classes s.exception_type (get_or s.mapper 0) http
    register_mappers specs http'

  abbrev pub new_http : HttpApp
  new_http = record {
    error_renderer = none;
    error_mapper_types = [];
    error_mapping_table = none;
    transport_policies = [];
    exception_handlers = [];
  }

  unfoldable pub middleware_of : AppConfig → List Middleware
  middleware_of config =
      cors ∷ (if config.access_log_enabled then access_log ∷ [] else []) ++ correlation_id ∷ []

  abbrev pub plain_router : List ℕ → Router → Included
  plain_router dependencies router = record {
    router = router;
    dependencies = dependencies;
    responses = [];
  }

  abbrev pub with_policy : List ℕ → TransportPolicy → Router → Included
  with_policy dependencies policy router = record {
    router = router;
    dependencies = dependencies ++ policy.dependencies;
    responses = response_definitions policy;
  }

  abbrev pub record_all : List Router → TransportPolicy → HttpApp → HttpApp
  record_all [] policy http = http
  record_all (r ∷ rs) policy http = record_all rs policy (record http {
    transport_policies =
        record_transport_policy environment.upper r (some policy) http.transport_policies;
  })

  -- The routers that `create_app` was given.
  unfoldable pub include_routers : Arguments → TransportPolicy → HttpApp → List Included × HttpApp
  include_routers a base http = elim a.transport_policy [
    | none ↦ (map (plain_router []) a.routers, http)
    | some policy ↦ (map (with_policy [] base) a.routers, record_all a.routers base http)
  ]

  abbrev pub include_module :
      Arguments → DomainModule → TransportPolicy → HttpApp → List Included × HttpApp
  include_module a m policy http =
      if not (is_some a.transport_policy) && not (is_some m.transport_policy)
      then (map (plain_router m.dependencies) m.routers, http)
      else (map (with_policy m.dependencies policy) m.routers, record_all m.routers policy http)

  unfoldable pub include_modules :
      Arguments
      → TransportPolicy
      → List DomainModule
      → List Included × HttpApp
      → Result (List Included × HttpApp)
  include_modules a base [] done = ok done
  include_modules a base (m ∷ ms) (included, http) = do
    policy ← resolve (some base) m.transport_policy
    let (more, http') = include_module a m policy http
    include_modules a base ms (included ++ more, http')

  abbrev pub own_routers : Arguments → List Included
  own_routers a = map (plain_router []) (
      environment.health_router
      ∷ (if a.include_auth_router then environment.auth_router ∷ [] else []))

  abbrev pub http_of : Arguments → Plan → Result HttpApp
  http_of a plan =
      register_mappers (all_mappers environment a plan)
        (install_problem_handlers a.error_renderer a.error_mapping_table new_http)

  abbrev pub include_all : Arguments → Plan → HttpApp → Result (List Included × HttpApp)
  include_all a plan http =
      let (given, http') = include_routers a plan.base_transport_policy http in
      include_modules a plan.base_transport_policy a.modules (own_routers a ++ given, http')

  -- The handlers, the middleware and the routers of an application.
  unfoldable pub finish : Arguments → Plan → ResourceRegistry → App → Result Application
  unfolding middleware_of
  finish a plan resource_registry app = do
    http ← http_of a plan
    result ← include_all a plan http
    ok (record {
      app = app;
      http = result.1;
      resource_registry = resource_registry;
      domain_modules = a.modules;
      lifespan = record {
        has_lifespan = a.has_lifespan;
        config = a.config;
        runtime = a.runtime;
        runtime_plan = plan.runtime_plan;
        resources = resource_registry.resources;
        require_auth_provider = a.include_auth_router;
      };
      transport_policy = plan.base_transport_policy;
      middleware = middleware_of a.config;
      included = result.0;
    })

  abbrev pub registry_of : Arguments → Plan → Result ReadinessRegistry
  registry_of a plan =
      register_checks plan.flattened.readiness_checks
        (record { default_timeout_seconds = a.config.readiness_timeout_seconds; specs = [] })

  unfoldable pub build : Arguments → Plan → Result Application
  unfolding equip
  build a plan = do
    registry ← registry_of a plan
    resource_registry ← make_registry reserved_resource_names (all_resources environment a plan)
    app ← equip a (new_app a registry)
    finish a plan resource_registry app

  unfoldable pub create_app : Arguments → Result Application
  create_app a = do plan ← prepare environment a; validate_all environment a plan; build a plan
