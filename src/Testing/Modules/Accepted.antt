-- ===== src/Testing/Modules/Accepted.antt =====
-- The contract of an application that `create_app` makes.
use mathlib.Core.List.{Memᴰ}
use fastapi_core.Prelude.{
  string_eq, list_eq, Bool, true, ◌&&◌, ◌||◌, ◌≡◌, refl, sym, ap, ◌∙◌, ◌↔◌, List, [], ◌∷◌, map, all,
  arith, is_empty, ◌==◌,
}
use fastapi_core.Dict.{get}
use fastapi_core.Result.{
  ok, is_ok, is_ok-for_each, is_ok_iff, is_ok-then, for_each, check_that, ◌>>◌,
}
use fastapi_core.Factory.{DomainModule}
use fastapi_core.Factory.Plan.{Arguments, Environment, Application}
use fastapi_core.Factory.Create.{create_app}
use fastapi_core.Factory.Create.Parts.{create_app-Built}
use fastapi_core.Openapi.{Document, openapi}
use fastapi_core.Testing.Contracts.{
  Texts, Client, OpenapiExpectation, assert_health_contract, assert_auth_router_contract,
  assert_openapi_contract,
}
use fastapi_core.Testing.Contracts.Parts.{is_ok-check_that}
use fastapi_core.Testing.Contracts.Conforming.{Conforms, assert_openapi_contract_iff}
use fastapi_core.Testing.Modules.{
  Equality, ApplicationContractProfile, no_expectation, expectation_for, assert_module_contract,
  assert_application_contract,
}
use fastapi_core.Testing.Modules.Routes.{router_is_there}
use fastapi_core.Testing.Modules.Installed.{create_app-installs}

-- The profile of an application with these modules, with nothing expected of them beside.
abbrev pub profile_of : List DomainModule → Bool → OpenapiExpectation → ApplicationContractProfile
profile_of modules included expectation = record {
  module_names = map (λ m. m.name) modules;
  auth_router_included = included;
  openapi = expectation;
  expected_resource_names = [];
  expected_readiness_names = [];
  expected_error_mapper_types = [];
  expected_transport_policies = [];
  expected_security_dependency_counts = [];
  expected_common_error_statuses = [];
}

all-listed :
    (p : DomainModule → Bool) (ms : List DomainModule)
    → ((m : DomainModule) → Memᴰ m ms → p m ≡ true)
    → all p ms ≡ true
all-listed p [] h = refl
all-listed p (m ∷ ms) h =
    ground (arith, h m (Memᴰ.head refl), all-listed p ms (λ m' l. h m' (Memᴰ.tail l)))

module _ (environment : Environment) (a : Arguments) (texts : Texts) (equality : Equality)
    (application : Application) (created : create_app environment a ≡ ok application)
    (same : (m : DomainModule) → equality.same_module m m ≡ true) (generated d : Document)
    (there : all (λ i. router_is_there texts generated i.router) application.included ≡ true)
    (given : openapi texts.lower a.config.token_url application.http.transport_policies generated
      ≡ ok d) where
  modules_accepted :
      is_ok (
        for_each application.domain_modules
          (λ m. assert_module_contract texts equality application (ok d) m no_expectation))
      ≡ true
  modules_accepted =
      let (plan, prepared, validated, b) = create_app-Built environment a application created in
      is_ok-for_each application.domain_modules _
      ∙ ap
          (all (λ m.
            is_ok (assert_module_contract texts equality application (ok d) m no_expectation)))
          b.same_modules
      ∙ (all-listed _ a.modules (λ m listed. (is_ok_iff _).1 (
          create_app-installs environment a texts equality application created m listed generated d
            there given (same m))))

  names_are_there :
      is_ok (
        check_that
          (is_empty (map (λ m. m.name) a.modules)
            || map (λ m. m.name) a.modules == map (λ m. m.name) application.domain_modules)
          "")
      ≡ true
  names_are_there =
      let (plan, prepared, validated, b) = create_app-Built environment a application created in
      let names = map (λ (m : DomainModule). m.name) a.modules in
      let own : names == map (λ m. m.name) application.domain_modules ≡ true =
        (list_eq.beq_iff names (map (λ m. m.name) application.domain_modules)).1
          (ap (map (λ m. m.name)) (sym b.same_modules)) in
      is_ok-check_that (is_empty names || names == map (λ m. m.name) application.domain_modules) ""
      ∙ ground (arith, own)

  is_ok-assert_application_contract :
      (client : Client) (included : Bool) (e : OpenapiExpectation)
      → is_ok (
          assert_application_contract texts equality application client
            (ok d)
            (profile_of a.modules included e))
        ≡ (true
            && (is_ok (assert_health_contract client)
                && (is_ok (assert_auth_router_contract client included)
                    && (is_ok (assert_openapi_contract texts d e) && true))))
  unfolding assert_application_contract expectation_for get
  is_ok-assert_application_contract client included e =
      let modules =
        for_each application.domain_modules
          (λ m. assert_module_contract texts equality application (ok d) m no_expectation) in
      let health = assert_health_contract client in
      let auth = assert_auth_router_contract client included in
      let document = assert_openapi_contract texts d e in
      is_ok-then _ (health >> (auth >> (document >> modules))) names_are_there (
        is_ok-then health (auth >> (document >> modules)) refl (
          is_ok-then auth (document >> modules) refl
            (is_ok-then document modules refl modules_accepted)))

  -- For an application that `create_app` makes, where the document that FastAPI generates has an
  -- operation for each method of the API routes of the routers that were included: the contract of the
  -- application, with the names of its modules in their order and nothing more expected of them, is
  -- met exactly if the client meets the contracts on health and on the authentication router, and the
  -- document conforms to what is expected of it.
  pub create_app-contract :
      (client : Client) (included : Bool) (e : OpenapiExpectation)
      → (assert_application_contract texts equality application client
            (ok d)
            (profile_of a.modules included e)
          ≡ ok tt)
        ↔ ((assert_health_contract client ≡ ok tt)
            × (assert_auth_router_contract client included ≡ ok tt)
            × Conforms texts d e)
  create_app-contract client included e =
      let whole = is_ok-assert_application_contract client included e in
      let passes = is_ok_iff (
        assert_application_contract texts equality application client (ok d)
          (profile_of a.modules included e)) in
      let health = is_ok_iff (assert_health_contract client) in
      let auth = is_ok_iff (assert_auth_router_contract client included) in
      let document = is_ok_iff (assert_openapi_contract texts d e) in
      let conforms = assert_openapi_contract_iff texts d e in
      (
        λ h.
            let passed = passes.1 h in
            (
              health.0 (ground arith),
              auth.0 (ground arith),
              conforms.0 (document.0 (ground arith)),
            ),
        λ (h, k, c). passes.0 (whole ∙ rw (health.1 h, auth.1 k, document.1 (conforms.1 c)) refl),
      )
