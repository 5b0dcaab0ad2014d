-- ===== src/Tests/Applications.antt =====
-- Services, permissions, and the making of an application.
use fastapi_core.Prelude.{
  String, string_eq, nat_eq, pair_eq, true, false, not, ◌≡◌, refl, ◌&&◌, Option, none, some,
  is_some, List, [], ◌∷◌, all, contains, distinct, add_all, dedupe,
}
use fastapi_core.Dict.{Dict, get, put, update}
use fastapi_core.Result.{Result, ok, err, timeout_error, is_ok}
use fastapi_core.Config.{default_config}
use fastapi_core.Resources.{to_bindings, validate, make_registry}
use fastapi_core.Runtime.{Object, Client, wrapper, ServiceRuntime, App}
use fastapi_core.Auth.{AuthenticatedUser}
use fastapi_core.Http.{Classes}
use fastapi_core.Transport.{
  default_policy, values_of, check_field, validate_module_conflicts, post_init, merge, resolve,
}
use fastapi_core.Http.Handlers.{HttpApp, install_problem_handlers, register_error_mapper}
use fastapi_core.Factory.{
  Router, api_route, ErrorMapperSpec, flatten_loop, flatten_modules, check_methods, check_route,
  check_routes, check_routers, validate_routes, register_extension_names, validate_extension_names,
  check_error_mappers, validate_error_mappers,
}
use fastapi_core.Factory.Routes.{all_contracts, all_ids, validate_routes_iff}
use fastapi_core.Factory.Names.{extension_names, validate_extension_names_iff}
use fastapi_core.Factory.Plan.{
  cors, access_log, correlation_id, Arguments, Environment, Application, Plan, plan_runtime,
  check_auth, prepare, validate_all,
}
use fastapi_core.Factory.Create.Mappers.{handlers_of, register_mappers-installs}
use fastapi_core.Factory.Create.{
  new_http, register_checks, equip, register_mappers, middleware_of, include_routers,
  include_modules, finish, build, create_app,
}
use fastapi_core.Factory.Create.Sound.{IsSound, create_app-IsSound}
use fastapi_core.Action.{Action}
use fastapi_core.Config.{AppConfig}
use fastapi_core.Config.Loading.{Process, load_app_config}
use fastapi_core.Testing.{assign_all, switch, test_environment}
use fastapi_core.Testing.Restored.{test_environment-restores}
use fastapi_core.Tests.Values.{spec, empty_store}

abbrev engine : Object
engine = record { ident = 5; classes = "Engine" ∷ [] }

abbrev clients : String → Option Client
clients name = some (wrapper engine)

abbrev runtime : ServiceRuntime
runtime = record {
  ident = 1;
  required_services = [];
  selected_services = [];
  checks = [];
  client = clients;
}

abbrev app : App
app = record {
  store = empty_store;
  service_runtime = some runtime;
  startup_healthcheck_result = none;
  auth_provider = none;
}

abbrev reader : AuthenticatedUser
reader = record {
  sub = "u1";
  preferred_username = none;
  email = none;
  name = none;
  realm_roles = "reader" ∷ [];
  client_roles = ("wiki", "editor" ∷ []) ∷ [];
  scope = some "openid items:read";
}

abbrev pub health_router : Router
health_router = record {
  ident = 0;
  is_api_router = true;
  routes = api_route "/health/liveness" ("GET" ∷ []) "liveness" ∷ [];
}

abbrev items_router : Router
items_router = record {
  ident = 1;
  is_api_router = true;
  routes = api_route "/items" ("GET" ∷ "POST" ∷ []) "items" ∷ [];
}

abbrev two_routers : List Router
two_routers = health_router ∷ items_router ∷ []

validate_routes_iff_example : is_ok (validate_routes two_routers) ≡ (
    all (λ r. r.is_api_router) two_routers
    && distinct (all_contracts two_routers)
    && distinct (all_ids two_routers))
validate_routes_iff_example = validate_routes_iff two_routers

validate_extension_names_iff_example :
    let names = extension_names [] (spec "queue" ∷ []) (some runtime) in
    is_ok (validate_extension_names [] (spec "queue" ∷ []) (some runtime) none)
    ≡ (distinct names && all (λ n. not (contains n [])) names)
validate_extension_names_iff_example =
    validate_extension_names_iff [] (spec "queue" ∷ []) (some runtime) none

abbrev pub classes : Classes
classes = record {
  is_exception_type = λ c. true;
  exception = 0;
  name = λ c. "Error";
  mro = λ c. c ∷ 0 ∷ [];
  call = λ f c. ok none;
}

abbrev mappers : List ErrorMapperSpec
mappers = record { exception_type = 3; mapper = some 1 } ∷ []

abbrev pub environment : Environment
environment = record {
  parse = λ name. ok name;
  diagnose = λ plan. true;
  classes = classes;
  upper = λ s. s;
  health_router = health_router;
  auth_router = record { ident = 2; is_api_router = true; routes = [] };
}

abbrev arguments : Arguments
arguments = record {
  config = default_config;
  runtime = none;
  has_lifespan = false;
  include_auth_router = false;
  routers = items_router ∷ [];
  modules = [];
  resources = [];
  error_mappers = mappers;
  error_renderer = none;
  auth_provider = none;
  transport_policy = none;
  error_mapping_table = none;
}

-- The application: both routers included, the mapper installed, and the middleware in order.
abbrev made : Application
made = record {
  app = record {
    store = record {
      history = [];
      readiness = record { default_timeout_seconds = none; specs = [] };
      instances = [];
    };
    service_runtime = none;
    startup_healthcheck_result = none;
    auth_provider = none;
  };
  http = record {
    error_renderer = none;
    error_mapper_types = 3 ∷ [];
    error_mapping_table = none;
    transport_policies = [];
    exception_handlers = (3, 1) ∷ [];
  };
  resource_registry = record { bindings = []; resources = [] };
  domain_modules = [];
  lifespan = record {
    has_lifespan = false;
    config = default_config;
    runtime = none;
    runtime_plan = none;
    resources = [];
    require_auth_provider = false;
  };
  transport_policy = default_policy;
  middleware = cors ∷ access_log ∷ correlation_id ∷ [];
  included =
      record { router = health_router; dependencies = []; responses = [] }
      ∷ record { router = items_router; dependencies = []; responses = [] }
      ∷ [];
}

created : create_app environment arguments ≡ ok made
unfolding plan_runtime check_auth prepare validate_all register_checks equip register_mappers
    middleware_of include_routers include_modules finish build create_app flatten_loop
    flatten_modules check_methods check_route check_routes check_routers validate_routes
    register_extension_names validate_extension_names check_error_mappers validate_error_mappers
    values_of check_field validate_module_conflicts post_init merge resolve to_bindings validate
    make_registry install_problem_handlers register_error_mapper get put update add_all dedupe
created = refl

create_app-IsSound_example :
    (plan : Plan) × (prepare environment arguments ≡ ok plan)
    × IsSound environment arguments plan made
create_app-IsSound_example = create_app-IsSound environment arguments made created

register_mappers-installs_example :
    (http : HttpApp) × (register_mappers environment mappers
        (install_problem_handlers none none (new_http environment))
      ≡ ok http)
    × (http.exception_handlers ≡ handlers_of mappers)
unfolding validate_error_mappers check_error_mappers
register_mappers-installs_example = register_mappers-installs environment mappers none none refl

abbrev process : Process
process = record {
  environ = ("HOME", "/home/app") ∷ ("DOCMESH_SERVICES", "minio") ∷ [];
  app_config = some default_config;
  docmesh_settings = none;
}

-- A test that sets a name and fails.
abbrev failing_test : Action Process (Unit {0})
failing_test p =
    (err timeout_error, record p { environ = put "DOCMESH_SERVICES" "postgres" p.environ })

abbrev overrides : Dict String (Option String)
overrides = ("DOCMESH_SERVICES", none) ∷ []

-- The environment decides one field.
abbrev read : Dict String String → Result AppConfig
read environ =
    ok (record default_config { access_log_enabled = is_some (get "DOCMESH_SERVICES" environ) })

test_environment-restores_example :
    let after = (test_environment overrides failing_test process).1 in
    ((load_app_config read (switch overrides process)).0
      ≡ read (assign_all overrides process.environ))
    × (get "DOCMESH_SERVICES" after.environ ≡ get "DOCMESH_SERVICES" process.environ)
    × ((load_app_config read after).0 ≡ read after.environ)
    × (after.docmesh_settings ≡ none)
test_environment-restores_example =
    test_environment-restores overrides failing_test process "DOCMESH_SERVICES" read
