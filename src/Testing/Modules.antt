-- ===== src/Testing/Modules.antt =====
-- `assert_module_contract` and `assert_application_contract` of fastapi_core/testing.py.
pub mod Names
pub mod Routes
pub mod Installed
pub mod Accepted
use fastapi_core.Prelude.{
  ℕ, ◌+◌, ◌==◌, ◌||◌, list_eq, String, string_eq, nat_eq, Bool, true, false, not, ◌&&◌, Option,
  none, some, List, [], ◌∷◌, ◌++◌, map, any, contains, subset, length, nat_beq, is_empty, get_or,
  if◌then◌else◌,
}
use fastapi_core.Prelude.Int.{ℤ, int_eq}
use fastapi_core.Text.{◌<>◌}
use fastapi_core.Dict.{Dict, get, has, keys}
use fastapi_core.Json.{Json}
use fastapi_core.Result.{Result, ok, err, key_error, check_that, for_each, ◌>>=◌, ◌>>◌}
use fastapi_core.Resources.{ResourceRegistry, resource_name}
use fastapi_core.Transport.{TransportPolicy}
use fastapi_core.Factory.{Route, api_route, other_route, Router, DomainModule, name_of_resource}
use fastapi_core.Factory.Plan.{Application}
use fastapi_core.Openapi.{Operation, Document}
use fastapi_core.Testing.Contracts.{
  Texts, Client, OpenapiExpectation, index_operation, response_codes, assert_health_contract,
  assert_auth_router_contract, assert_openapi_contract,
}

-- The keyword arguments of `assert_module_contract`.
pub record ModuleExpectation : Type 0 where
  pub expected_transport_policy : Option TransportPolicy
  pub expected_resource_names : List String
  pub expected_readiness_names : List String
  pub expected_error_mapper_types : List ℕ
  pub expected_security_dependency_count : Option ℕ
  pub expected_common_error_statuses : List ℤ

-- Their defaults.
abbrev pub no_expectation : ModuleExpectation
no_expectation = record {
  expected_transport_policy = none;
  expected_resource_names = [];
  expected_readiness_names = [];
  expected_error_mapper_types = [];
  expected_security_dependency_count = none;
  expected_common_error_statuses = [];
}

-- `==` of two modules and of two policies, and the name of a class.
pub record Equality : Type 0 where
  pub same_module : DomainModule → DomainModule → Bool
  pub same_policy : TransportPolicy → TransportPolicy → Bool
  pub class_name : ℕ → String

unfoldable pub resource_names : ResourceRegistry → List String
resource_names registry = map resource_name registry.resources

-- A test of each method of each API route.
abbrev for_route : (String → String → Result (Unit {0})) → Route → Result (Unit {0})
for_route f other_route = ok tt
for_route f (api_route path methods id) = for_each methods (f path)

unfoldable pub for_routes : (String → String → Result (Unit {0})) → List Router → Result (Unit {0})
for_routes f routers = for_each routers (λ router. for_each router.routes (for_route f))

abbrev or_no_responses : Option (Dict String Json) → Result (Dict String Json)
or_no_responses none = err (key_error "responses")
or_no_responses (some responses) = ok responses

abbrev policy_dependencies : Option TransportPolicy → ℕ
policy_dependencies none = 0
policy_dependencies (some policy) = length policy.dependencies

-- What is expected of each module is by its name.
pub record ApplicationContractProfile : Type 0 where
  pub module_names : List String
  pub auth_router_included : Bool
  pub openapi : OpenapiExpectation
  pub expected_resource_names : Dict String (List String)
  pub expected_readiness_names : Dict String (List String)
  pub expected_error_mapper_types : Dict String (List ℕ)
  pub expected_transport_policies : Dict String TransportPolicy
  pub expected_security_dependency_counts : Dict String ℕ
  pub expected_common_error_statuses : Dict String (List ℤ)

unfoldable pub expectation_for : String → ApplicationContractProfile → ModuleExpectation
expectation_for name profile = record {
  expected_transport_policy = get name profile.expected_transport_policies;
  expected_resource_names = get_or (get name profile.expected_resource_names) [];
  expected_readiness_names = get_or (get name profile.expected_readiness_names) [];
  expected_error_mapper_types = get_or (get name profile.expected_error_mapper_types) [];
  expected_security_dependency_count = get name profile.expected_security_dependency_counts;
  expected_common_error_statuses = get_or (get name profile.expected_common_error_statuses) [];
}

abbrev check_dependencies : DomainModule → Option ℕ → Result (Unit {0})
check_dependencies m none = ok tt
check_dependencies m (some count) =
    check_that (nat_beq (length m.dependencies + policy_dependencies m.transport_policy) count) ""

module _ (texts : Texts) where
  unfoldable pub check_method : Document → String → String → Result (Unit {0})
  check_method d path method =
      check_that (has (texts.lower method) (get_or (get path d.paths) []))
        ("module route '" <> method <> " " <> path <> "' is not installed")

  unfoldable pub check_common : Document → List ℤ → String → String → Result (Unit {0})
  check_common d statuses path method = do
    operation ← index_operation d path (texts.lower method)
    responses ← or_no_responses operation.responses
    codes ← response_codes texts (keys responses)
    check_that (subset statuses codes) ""

module _ (texts : Texts) (equality : Equality) where
  -- What the module brings, on the application.
  unfoldable pub check_installed : Application → Document → DomainModule → Result (Unit {0})
  check_installed app d m = do
    for_routes (check_method texts d) m.routers
    let installed_resources = resource_names app.resource_registry
    for_each m.resources (λ r.
        check_that (contains (name_of_resource r) installed_resources)
          ("module resource '" <> name_of_resource r <> "' is not installed"))
    for_each m.readiness_checks (λ spec.
        check_that (has spec.name app.app.store.readiness.specs)
          ("module readiness check '" <> spec.name <> "' is not installed"))
    for_each m.error_mappers (λ spec.
        check_that (contains spec.exception_type app.http.error_mapper_types) (
          "module error mapper '"
          <> equality.class_name spec.exception_type
          <> "' is not installed"))

  abbrev check_policy : DomainModule → Option TransportPolicy → Result (Unit {0})
  check_policy m none = ok tt
  check_policy m (some policy) = elim m.transport_policy [
    | none ↦ check_that false ""
    | some own ↦ check_that (equality.same_policy own policy) ""
  ]

  -- What is expected of the module itself.
  unfoldable pub check_expected : Document → DomainModule → ModuleExpectation → Result (Unit {0})
  check_expected d m x = do
    check_policy m x.expected_transport_policy
    check_that (subset x.expected_resource_names (map name_of_resource m.resources)) ""
    check_that (subset x.expected_readiness_names (map (λ s. s.name) m.readiness_checks)) ""
    check_that (subset x.expected_error_mapper_types (map (λ s. s.exception_type) m.error_mappers))
        ""
    check_dependencies m x.expected_security_dependency_count
    if is_empty x.expected_common_error_statuses
        then ok tt
        else for_routes (check_common texts d x.expected_common_error_statuses) m.routers

  -- `document` is what `app.openapi()` comes to.
  unfoldable pub assert_module_contract :
      Application → Result Document → DomainModule → ModuleExpectation → Result (Unit {0})
  assert_module_contract app document m x = do
    check_that (any (equality.same_module m) app.domain_modules)
        ("module '" <> m.name <> "' is not installed")
    d ← document
    check_installed app d m
    check_expected d m x

  -- `client` is the test client, within its lifespan.
  unfoldable pub assert_application_contract :
      Application → Client → Result Document → ApplicationContractProfile → Result (Unit {0})
  assert_application_contract app client document profile = do
    let installed_names = map (λ m. m.name) app.domain_modules
    check_that (is_empty profile.module_names || profile.module_names == installed_names) ""
    assert_health_contract client
    assert_auth_router_contract client profile.auth_router_included
    d ← document
    assert_openapi_contract texts d profile.openapi
    for_each app.domain_modules
        (λ m. assert_module_contract app document m (expectation_for m.name profile))
