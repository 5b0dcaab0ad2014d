-- ===== src/Tests/Documents.antt =====
-- The document of an application, and the assertions on it.
use mathlib.Core.List.{Memᴰ}
use fastapi_core.Prelude.{
  string_eq, nat_eq, pair_eq, true, false, ◌≡◌, ◌↔◌, refl, none, some, is_some, [], ◌∷◌,
  if◌then◌else◌,
}
use fastapi_core.Prelude.Int.{pos}
use fastapi_core.Result.{ok}
use fastapi_core.Factory.Plan.{all_routers}
use fastapi_core.Openapi.{transport_openapi}
use fastapi_core.Openapi.Documented.{
  operation_at, response_at, policy_for, given_by, transport_openapi-documents,
}
use fastapi_core.Json.{text, object, end, member}
use fastapi_core.Factory.{DomainModule}
use fastapi_core.Testing.Modules.Accepted.{profile_of, create_app-contract}
use fastapi_core.Testing.Contracts.{
  ClientResponse, Client, OpenapiExpectation, assert_health_contract, assert_auth_router_contract,
  assert_openapi_contract,
}
use fastapi_core.Testing.Contracts.Conforming.{Conforms, assert_openapi_contract_iff}
use fastapi_core.Testing.Modules.{
  no_expectation, assert_module_contract, assert_application_contract,
}
use fastapi_core.Testing.Modules.Installed.{create_app-installs}
use fastapi_core.Factory.Create.Inclusion.{routers_of, create_app-includes}
use fastapi_core.Tests.Applications.{environment}
use fastapi_core.Tests.Orders.{
  orders, arguments, made, created, lower, texts, generated, documented, opened, there, equality,
}

create_app-installs_example :
    assert_module_contract texts equality made (ok documented) orders no_expectation ≡ ok tt
create_app-installs_example =
    create_app-installs environment arguments texts equality made created orders (Memᴰ.head refl)
      generated documented there opened refl

create_app-includes_example : routers_of made.included ≡ all_routers environment arguments
create_app-includes_example = create_app-includes environment arguments made created

transport_openapi-documents_example :
    let policies = made.http.transport_policies in
    let d = transport_openapi lower policies generated in
    (response_at d "/orders" "get" "422" ≡ (
      if is_some (operation_at generated "/orders" "get")
      then given_by lower
          (policy_for lower policies "/orders" "get")
          "422"
          (response_at generated "/orders" "get" "422")
      else none))
    × (response_at (transport_openapi lower policies d) "/orders" "get" "422"
        ≡ response_at d "/orders" "get" "422")
transport_openapi-documents_example =
    transport_openapi-documents lower made.http.transport_policies generated "/orders" "get" "422"
      refl

abbrev expectation : OpenapiExpectation
expectation = record {
  expected_paths = ("/orders", "GET" ∷ []) ∷ [];
  expected_security_schemes = [];
  expected_responses = (("/orders", "GET"), pos 400 ∷ []) ∷ [];
  validation_status = some 400;
  include_synthetic_422 = some false;
}

assert_openapi_contract_iff_example :
    (assert_openapi_contract texts documented expectation ≡ ok tt)
    ↔ Conforms texts documented expectation
assert_openapi_contract_iff_example = assert_openapi_contract_iff texts documented expectation

-- A client that every request answers with 200 and the status ok.
abbrev healthy : ClientResponse
healthy = record { status_code = 200; json = ok (object (member "status" (text "ok") end)) }

abbrev client : Client
client = record { get = λ path. ok healthy; post = λ path. ok healthy }

same : (m : DomainModule) → equality.same_module m m ≡ true
same m = (string_eq.beq_iff m.name m.name).1 refl

create_app-contract_example :
    (assert_application_contract texts equality made client
        (ok documented)
        (profile_of arguments.modules true expectation)
      ≡ ok tt)
    ↔ ((assert_health_contract client ≡ ok tt)
        × (assert_auth_router_contract client true ≡ ok tt)
        × Conforms texts documented expectation)
create_app-contract_example =
    create_app-contract environment arguments texts equality made created same generated documented
      there opened client true expectation
