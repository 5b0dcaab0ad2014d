-- ===== src/Tests/Orders.antt =====
-- An application with a module for orders, and its document.
use fastapi_core.Prelude.{
  String, string_eq, nat_eq, pair_eq, ◌==◌, true, false, ◌≡◌, refl, Option, none, some, [], ◌∷◌,
  all, if◌then◌else◌, add_all, dedupe,
}
use fastapi_core.Prelude.Int.{ℤ, pos}
use fastapi_core.Dict.{get, put, remove, set_default, update}
use fastapi_core.Result.{ok}
use fastapi_core.Json.{null, text, object, end, member}
use fastapi_core.Config.{default_config}
use fastapi_core.Readiness.{register}
use fastapi_core.Resources.{
  Resource, managed, Options, resource_key, bind, make_binding, to_binding, managed_resource,
  validate_resource, to_bindings, validate, make_registry,
}
use fastapi_core.Resources
use fastapi_core.Resources.{ManagedResource, key}
use fastapi_core.Transport.{
  TransportPolicy, default_policy, values_of, check_field, validate_module_conflicts, post_init,
  merge, resolve,
}
use fastapi_core.Http.Handlers.{install_problem_handlers, register_error_mapper}
use fastapi_core.Factory.{
  record_transport_policy, Router, api_route, DomainModule, flatten_loop, flatten_modules,
  check_methods, check_route, check_routes, check_routers, validate_routes,
  register_extension_names, validate_extension_names, check_error_mappers, validate_error_mappers,
}
use fastapi_core.Factory.Plan.{
  Arguments, Application, cors, access_log, correlation_id, plan_runtime, check_auth, prepare,
  validate_all,
}
use fastapi_core.Factory.Create.{
  register_checks, equip, register_mappers, middleware_of, include_routers, include_modules, finish,
  build, create_app,
}
use fastapi_core.Text.{is_blank}
use fastapi_core.Text.Decimal.{str}
use fastapi_core.Transport.{
  built, response_definitions, effective_validation_status, effective_include_synthetic_422,
}
use fastapi_core.Openapi.{
  Operation, Document, oauth2_openapi, document_responses, document_policy, transport_openapi,
  openapi,
}
use fastapi_core.Openapi.Documented.{validation_error}
use fastapi_core.Testing.Contracts.{Texts}
use fastapi_core.Testing.Modules.{Equality}
use fastapi_core.Testing.Modules.Routes.{router_is_there}
use fastapi_core.Tests.Values.{spec, opener}
use fastapi_core.Tests.Applications.{environment, health_router}

abbrev cache_options : Options
cache_options = record {
  factory = opener;
  healthcheck = none;
  close = none;
  required = true;
  readiness_timeout_seconds = none;
  redact_errors = true;
  health_result_adapter = none;
}

abbrev cache : Resource
cache = managed (record { name = Resources.text "cache"; options = cache_options })

abbrev orders_router : Router
orders_router = record {
  ident = 5;
  is_api_router = true;
  routes = api_route "/orders" ("GET" ∷ []) "list_orders" ∷ [];
}

abbrev pub orders : DomainModule
orders = record {
  name = "orders";
  routers = orders_router ∷ [];
  dependencies = [];
  resources = cache ∷ [];
  readiness_checks = spec "queue" ∷ [];
  error_mappers = record { exception_type = 3; mapper = some 1 } ∷ [];
  transport_policy = some (record default_policy { validation_status = some 400 });
}

abbrev pub arguments : Arguments
arguments = record {
  config = default_config;
  runtime = none;
  has_lifespan = false;
  include_auth_router = false;
  routers = [];
  modules = orders ∷ [];
  resources = [];
  error_mappers = [];
  error_renderer = none;
  auth_provider = none;
  transport_policy = none;
  error_mapping_table = none;
}

abbrev strict : TransportPolicy
strict = record default_policy { validation_status = some 400 }

abbrev kept_cache : ManagedResource
kept_cache = record { name = key "cache"; options = cache_options }

-- The application: the check, the mapper, the resource and the router of the module are on it.
abbrev pub made : Application
made = record {
  app = record {
    store = record {
      history = [];
      readiness = record { default_timeout_seconds = none; specs = ("queue", spec "queue") ∷ [] };
      instances = [];
    };
    service_runtime = none;
    startup_healthcheck_result = none;
    auth_provider = none;
  };
  http = record {
    error_renderer = none;
    error_mapper_types = 3 ∷ [];
    error_mapping_table = none;
    transport_policies = (("GET", "/orders"), strict) ∷ [];
    exception_handlers = (3, 1) ∷ [];
  };
  resource_registry = record {
    bindings = record { key = "cache"; options = cache_options } ∷ [];
    resources = kept_cache ∷ [];
  };
  domain_modules = orders ∷ [];
  lifespan = record {
    has_lifespan = false;
    config = default_config;
    runtime = none;
    runtime_plan = none;
    resources = kept_cache ∷ [];
    require_auth_provider = false;
  };
  transport_policy = default_policy;
  middleware = cors ∷ access_log ∷ correlation_id ∷ [];
  included =
      record { router = health_router; dependencies = []; responses = [] }
      ∷ record {
        router = orders_router;
        dependencies = [];
        responses = (400, built "Request validation error" none) ∷ [];
      }
      ∷ [];
}

pub created : create_app environment arguments ≡ ok made
unfolding plan_runtime check_auth prepare validate_all register_checks equip register_mappers
    middleware_of include_routers include_modules finish build create_app flatten_loop
    flatten_modules check_methods check_route check_routes check_routers validate_routes
    register_extension_names validate_extension_names check_error_mappers validate_error_mappers
    values_of check_field validate_module_conflicts post_init merge resolve to_bindings validate
    make_registry install_problem_handlers register_error_mapper get put update add_all dedupe
    register is_blank record_transport_policy response_definitions set_default
    effective_validation_status
created = refl

abbrev pub lower : String → String
lower s = if s == "GET" then "get" else s

abbrev to_int : String → Option ℤ
to_int s = if s == "400" then some (pos 400) else if s == "422" then some (pos 422) else none

abbrev pub texts : Texts
texts = record { lower = lower; upper = λ s. s; to_int = to_int }

-- What FastAPI generates: an operation, with its answers and a reference.
abbrev operation : String → Operation
operation id = record {
  operation_id = some id;
  responses = some (("200", null) ∷ ("422", null) ∷ []);
  rest = ("schema", object (member "$ref" (text "#/components/schemas/Order") end)) ∷ [];
}

abbrev pub generated : Document
generated = record {
  paths =
      ("/health/liveness", ("get", operation "liveness") ∷ [])
      ∷ ("/orders", ("get", operation "list_orders") ∷ [])
      ∷ [];
  security_schemes = [];
  schemas = ("Order", null) ∷ [];
  rest = [];
}

-- The operation with what its policy adds and leaves out.
abbrev pub documented : Document
documented = record generated {
  paths =
      ("/health/liveness", ("get", operation "liveness") ∷ [])
      ∷ (
        "/orders",
        (
          "get",
          record (operation "list_orders") {
            responses = some (("200", null) ∷ ("400", validation_error) ∷ []);
          },
        )
            ∷ [],
      )
      ∷ [];
}

pub opened : openapi lower "/token" made.http.transport_policies generated ≡ ok documented
unfolding openapi oauth2_openapi transport_openapi document_policy document_responses str
    effective_validation_status effective_include_synthetic_422 get put remove set_default
opened = refl

pub there : all (λ i. router_is_there texts generated i.router) made.included ≡ true
unfolding get
there = refl

abbrev pub equality : Equality
equality = record {
  same_module = λ m n. m.name == n.name;
  same_policy = λ p q. true;
  class_name = λ c. "Error";
}
