-- ===== src/Factory.antt =====
-- fastapi_core/factory.py and modules.py: what an application is made of, and the checks before it
-- is made. A router is FastAPI's: the model has what the program reads of it.
pub mod Names
pub mod Routes
pub mod Plan
pub mod Create
use fastapi_core.Prelude.{
  ℕ, String, string_eq, nat_eq, pair_eq, Bool, true, false, not, ◌&&◌, Option, none, some, List, [],
  ◌∷◌, ◌++◌, map, filter, contains, add, is_empty, if◌then◌else◌,
}
use fastapi_core.Text.{is_blank, sorted, ◌<>◌}
use fastapi_core.Dict.{Dict, keys, put}
use fastapi_core.Result.{Exn, Result, ok, err, value_error, type_error, raise_if, ◌>>=◌, ◌>>◌}
use fastapi_core.Store.{ReadinessCheckSpec}
use fastapi_core.Config.{AppConfig}
use fastapi_core.Resources.{Resource, managed, binding, resource_name}
use fastapi_core.Runtime.{RuntimePlan, ServiceRuntime, first_of_sorted}
use fastapi_core.Transport.{TransportPolicy, validate_module_conflicts}
use fastapi_core.Http.{Classes}

-- A route: an `APIRoute`, or another.
pub data Route : Type 0 where
  api_route : String → List String → String → Route
  other_route : Route

pub record Router : Type 0 where
  pub ident : ℕ
  pub is_api_router : Bool
  pub routes : List Route

-- `mapper` is a callable by its identity, or something else.
pub record ErrorMapperSpec : Type 0 where
  pub exception_type : ℕ
  pub mapper : Option ℕ

pub record DomainModule : Type 0 where
  pub name : String
  pub routers : List Router
  pub dependencies : List ℕ
  pub resources : List Resource
  pub readiness_checks : List ReadinessCheckSpec
  pub error_mappers : List ErrorMapperSpec
  pub transport_policy : Option TransportPolicy

-- The constructor of a module.
unfoldable pub make_module : DomainModule → Result DomainModule
make_module m =
    raise_if (is_blank m.name) (value_error "domain module name must not be empty") >> ok m

-- What the modules bring, in their order.
pub record Flattened : Type 0 where
  pub resources : List Resource
  pub readiness_checks : List ReadinessCheckSpec
  pub error_mappers : List ErrorMapperSpec

abbrev pub extend : DomainModule → Flattened → Flattened
extend m f = record {
  resources = f.resources ++ m.resources;
  readiness_checks = f.readiness_checks ++ m.readiness_checks;
  error_mappers = f.error_mappers ++ m.error_mappers;
}

unfoldable pub flatten_loop : List String → List DomainModule → Flattened → Result Flattened
flatten_loop names [] f = ok f
flatten_loop names (m ∷ ms) f =
    raise_if (contains m.name names)
      (value_error ("domain module '" <> m.name <> "' is already registered"))
    >> flatten_loop (add m.name names) ms (extend m f)

abbrev pub policies_of : List DomainModule → List TransportPolicy
policies_of [] = []
policies_of (m ∷ ms) = elim m.transport_policy [
  | none ↦ policies_of ms
  | some p ↦ p ∷ policies_of ms
]

unfoldable pub flatten_modules : List DomainModule → Result Flattened
unfolding flatten_loop
flatten_modules ms = do
  flattened ←
      flatten_loop [] ms (record { resources = []; readiness_checks = []; error_mappers = [] })
  validate_module_conflicts (policies_of ms)
  ok flattened

-- The two sets of `_validate_routes`.
pub record Seen : Type 0 where
  pub contracts : List (String × String)
  pub operation_ids : List String

unfoldable pub check_methods : String → List String → Seen → Result Seen
check_methods path [] seen = ok seen
check_methods path (m ∷ ms) seen =
    raise_if (contains (path, m) seen.contracts)
      (value_error ("route '" <> m <> " " <> path <> "' is already registered"))
    >> check_methods path ms (record seen { contracts = add (path, m) seen.contracts })

abbrev pub check_operation_id : String → Seen → Result Seen
check_operation_id id seen =
    raise_if (contains id seen.operation_ids)
      (value_error ("operation ID '" <> id <> "' is already registered"))
    >> ok (record seen { operation_ids = add id seen.operation_ids })

unfoldable pub check_route : Route → Seen → Result Seen
unfolding check_methods
check_route other_route seen = ok seen
check_route (api_route path methods id) seen = do
  seen' ← check_methods path methods seen
  check_operation_id id seen'

unfoldable pub check_routes : List Route → Seen → Result Seen
unfolding check_route
check_routes [] seen = ok seen
check_routes (r ∷ rs) seen = do seen' ← check_route r seen; check_routes rs seen'

unfoldable pub check_routers : List Router → Seen → Result Seen
unfolding check_routes
check_routers [] seen = ok seen
check_routers (r ∷ rs) seen = do
  raise_if (not r.is_api_router) (type_error "routers must contain APIRouter instances")
  seen' ← check_routes r.routes seen
  check_routers rs seen'

unfoldable pub validate_routes : List Router → Result (Unit {0})
unfolding check_routers
validate_routes routers =
    check_routers routers (record { contracts = []; operation_ids = [] }) >>= λ _. ok tt

abbrev pub name_of_resource : Resource → String
name_of_resource (managed r) = resource_name r
name_of_resource (binding b) = b.key

-- `_register_extension_name` for each name
unfoldable pub register_extension_names : List String → List String → Result (List String)
register_extension_names names [] = ok names
register_extension_names names (n ∷ ns) =
    raise_if (contains n names) (value_error ("extension name '" <> n <> "' is already registered"))
    >> register_extension_names (add n names) ns

abbrev pub runtime_names : Option ServiceRuntime → List String
runtime_names none = []
runtime_names (some runtime) = keys runtime.checks

abbrev pub planned_names : Option RuntimePlan → List String
planned_names none = []
planned_names (some plan) = keys plan.services

abbrev pub planned_error : List String → List String → Result (Unit {0})
planned_error names planned =
    let duplicates = filter (λ n. contains n planned) names in
    raise_if (not (is_empty duplicates)) (
      value_error
        ("extension name '" <> first_of_sorted (sorted duplicates) <> "' is already registered"))

unfoldable pub validate_extension_names :
    List Resource
    → List ReadinessCheckSpec
    → Option ServiceRuntime
    → Option RuntimePlan
    → Result (Unit {0})
unfolding register_extension_names
validate_extension_names resources checks runtime plan = do
  resource_names ← register_extension_names [] (map name_of_resource resources)
  check_names ← register_extension_names resource_names (map (λ s. s.name) checks)
  names ← register_extension_names check_names (runtime_names runtime)
  planned_error names (planned_names plan)

abbrev is_callable : Option ℕ → Bool
is_callable none = false
is_callable (some f) = true

module _ (classes : Classes) where
  unfoldable pub check_error_mappers : List ℕ → List ErrorMapperSpec → Result (Unit {0})
  check_error_mappers exception_types [] = ok tt
  check_error_mappers exception_types (s ∷ specs) =
      raise_if (not (classes.is_exception_type s.exception_type))
        (type_error "error mapper exception_type must be an Exception type")
      >> raise_if (not (is_callable s.mapper)) (type_error "error mapper must be callable")
      >> raise_if (contains s.exception_type exception_types) (
          value_error
            ("error mapper for '" <> classes.name s.exception_type <> "' is already registered"))
      >> check_error_mappers (add s.exception_type exception_types) specs

  unfoldable pub validate_error_mappers : List ErrorMapperSpec → Result (Unit {0})
  unfolding check_error_mappers
  validate_error_mappers specs = check_error_mappers [] specs

-- `diagnose` is docmesh_py_core's `diagnose_services`, with its verdict; the text of a diagnosis is
-- left out.
unfoldable pub diagnose_auth_configuration :
    (RuntimePlan → Bool) → AppConfig → RuntimePlan → Result (Unit {0})
diagnose_auth_configuration diagnose config plan =
    raise_if (not (contains "keycloak" config.enabled_services))
      (value_error "auth router requires the keycloak service to be enabled")
    >> raise_if (not (contains "keycloak" config.required_services))
        (value_error "auth router requires the keycloak service to be required")
    >> raise_if (not (diagnose plan)) (value_error "auth router service configuration is invalid: ")

abbrev method_keys :
    (String → String)
    → TransportPolicy
    → String
    → List String
    → Dict (String × String) TransportPolicy
    → Dict (String × String) TransportPolicy
method_keys upper policy path [] d = d
method_keys upper policy path (m ∷ ms) d =
    method_keys upper policy path ms (put (upper m, path) policy d)

abbrev record_routes :
    (String → String)
    → TransportPolicy
    → List Route
    → Dict (String × String) TransportPolicy
    → Dict (String × String) TransportPolicy
record_routes upper policy [] d = d
record_routes upper policy (other_route ∷ rs) d = record_routes upper policy rs d
record_routes upper policy (api_route path methods id ∷ rs) d =
    record_routes upper policy rs (method_keys upper policy path methods d)

-- `_record_transport_policy`, on `app.state.transport_policies`
unfoldable pub record_transport_policy :
    (String → String)
    → Router
    → Option TransportPolicy
    → Dict (String × String) TransportPolicy
    → Dict (String × String) TransportPolicy
record_transport_policy upper router none d = d
record_transport_policy upper router (some policy) d = record_routes upper policy router.routes d
