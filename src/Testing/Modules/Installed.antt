-- ===== src/Testing/Modules/Installed.antt =====
-- The modules of an application pass the assertions on them.
use mathlib.Core.List.{Memᴰ, map-append}
use fastapi_core.Prelude.{
  String, string_eq, nat_eq, pair_eq, Bool, true, ◌≡◌, refl, sym, ap, ◌∙◌, none, List, [], ◌∷◌,
  ◌++◌, map, all, any, contains, arith, if◌then◌else◌,
}
use fastapi_core.Dict.{has}
use fastapi_core.Result.{
  ok, is_ok, is_ok-for_each, is_ok_iff, is_ok-then, check_that, for_each, >>=-eq-ok,
}
use fastapi_core.Factory.{DomainModule, name_of_resource}
use fastapi_core.Factory.Plan.{
  Arguments, Environment, Application, Plan, module_routers, all_mappers, prepare,
}
use fastapi_core.Factory.Create.{create_app, new_app}
use fastapi_core.Http.Handlers.{install_problem_handlers}
use fastapi_core.Openapi.{Document, openapi}
use fastapi_core.Testing.Contracts.{Texts}
use fastapi_core.Testing.Contracts.Parts.{all-ext, is_ok-check_that}
use fastapi_core.Testing.Modules.Names.{
  all-contains-map, subset-append_right, subset-collect, all-collect, flatten_modules_lem,
  make_registry_names,
}
use fastapi_core.Factory.{flatten_modules}
use fastapi_core.Factory.Plan.{plan_runtime, check_auth}
use fastapi_core.Transport.{resolve}
use fastapi_core.Factory.Names.{types_of}
use fastapi_core.Factory.Create.Parts.{create_app-Built}
use fastapi_core.Factory.Create.Inclusion.{routers_of, include_all_lem, create_app-includes}
use fastapi_core.Factory.Create.Checks.{register_checks_lem, equip_keeps, holds}
use fastapi_core.Factory.Create.Mappers.{register_mappers_types}
use fastapi_core.Testing.Modules.{
  Equality, resource_names, no_expectation, check_installed, check_expected, assert_module_contract,
}
use fastapi_core.Testing.Modules.Routes.{
  router_is_there, is_ok-for_routes, router_is_there-openapi, collect_routers, all-routers_of,
  all-imp, all-suffix, any-mem,
}

prepare_flattened :
    (environment : Environment) (a : Arguments) (plan : Plan)
    → prepare environment a ≡ ok plan
    → flatten_modules a.modules ≡ ok plan.flattened
unfolding prepare
prepare_flattened environment a plan h =
    let (runtime_plan, e1, h1) = >>=-eq-ok (plan_runtime environment a) _ h in
    let (done, e2, h2) = >>=-eq-ok (check_auth environment a runtime_plan) _ h1 in
    let (flattened, e3, h3) = >>=-eq-ok (flatten_modules a.modules) _ h2 in
    let (base, e4, same) = >>=-eq-ok (resolve none a.transport_policy) _ h3 in e3 ∙ ground arith

each :
    {A : Type 0} (test : A → Bool) (message : A → String) (xs : List A)
    → is_ok (for_each xs (λ x. check_that (test x) (message x))) ≡ all test xs
each test message xs = is_ok-for_each xs _ ∙ all-ext (λ x. is_ok-check_that (test x) (message x)) xs

module _ (environment : Environment) (a : Arguments) (texts : Texts) (equality : Equality)
    (application : Application) (created : create_app environment a ≡ ok application)
    (m : DomainModule) (listed : Memᴰ m a.modules) where
  resources_installed :
      all
        (λ r. contains (name_of_resource r) (resource_names application.resource_registry))
        m.resources
      ≡ true
  unfolding resource_names
  resources_installed =
      let (plan, prepared, validated, b) = create_app-Built environment a application created in
      let flattened =
        flatten_modules_lem a.modules plan.flattened
          (prepare_flattened environment a plan prepared) in
      all-contains-map name_of_resource m.resources _
      ∙ rw
          (
            make_registry_names _ _ application.resource_registry b.made,
            map-append name_of_resource a.resources plan.flattened.resources,
            flattened.0,
          )
          (subset-append_right (map name_of_resource m.resources) (map name_of_resource a.resources)
            _ (subset-collect (λ m. m.resources) name_of_resource m a.modules listed))

  mappers_installed :
      all (λ s. contains s.exception_type application.http.error_mapper_types) m.error_mappers
      ≡ true
  unfolding install_problem_handlers
  mappers_installed =
      let (plan, prepared, validated, b) = create_app-Built environment a application created in
      let flattened =
        flatten_modules_lem a.modules plan.flattened
          (prepare_flattened environment a plan prepared) in
      let types =
        (include_all_lem environment a plan b.http application.http application.included
          b.included).1
        ∙ register_mappers_types environment (all_mappers environment a plan) _ b.http b.mapped in
      all-contains-map (λ s. s.exception_type) m.error_mappers _
      ∙ rw
          (
            types,
            map-append (λ s. s.exception_type) a.error_mappers plan.flattened.error_mappers,
            flattened.2,
          )
          (subset-append_right (types_of m.error_mappers) (types_of a.error_mappers) _
            (subset-collect (λ m. m.error_mappers) (λ s. s.exception_type) m a.modules listed))

  checks_installed :
      all (λ s. has s.name application.app.store.readiness.specs) m.readiness_checks ≡ true
  checks_installed =
      let (plan, prepared, validated, b) = create_app-Built environment a application created in
      let flattened =
        flatten_modules_lem a.modules plan.flattened
          (prepare_flattened environment a plan prepared) in
      let registered =
        register_checks_lem environment plan.flattened.readiness_checks _ b.checks b.registered in
      all-imp
        (λ s.
          equip_keeps environment a (new_app environment a b.checks) application.app b.equipped
            s.name)
        m.readiness_checks
        (all-collect (λ m. m.readiness_checks) (λ s. holds b.checks s.name) m a.modules
          (rw (sym flattened.1) registered.1) listed)

  routes_installed :
      (d : Document)
      → all (router_is_there texts d) (routers_of application.included) ≡ true
      → all (router_is_there texts d) m.routers ≡ true
  routes_installed d h =
      let same = create_app-includes environment a application created in
      all-collect (λ m. m.routers) (router_is_there texts d) m a.modules
        (rw (sym (collect_routers a.modules)) (
          all-suffix (router_is_there texts d)
            ((environment.health_router
                ∷ (if a.include_auth_router then environment.auth_router ∷ [] else []))
              ++ a.routers)
            (module_routers a.modules) (ap (all (router_is_there texts d)) (sym same) ∙ h)))
        listed

  -- For an application that `create_app` makes, and a module that it was given: where the document that
  -- FastAPI generates has an operation for each method of the API routes of the routers that were
  -- included, the assertions that the module is installed pass on it and on the document that
  -- `app.openapi()` then gives.
  pub create_app-installs :
      (generated d : Document)
      → all (λ i. router_is_there texts generated i.router) application.included ≡ true
      → openapi texts.lower a.config.token_url application.http.transport_policies generated ≡ ok d
      → equality.same_module m m ≡ true
      → assert_module_contract texts equality application (ok d) m no_expectation ≡ ok tt
  unfolding assert_module_contract check_installed check_expected
  create_app-installs generated d there given same =
      let (plan, prepared, validated, b) = create_app-Built environment a application created in
      let policies = application.http.transport_policies in
      let there' : all (router_is_there texts d) (routers_of application.included) ≡ true =
        all-ext (router_is_there-openapi texts a.config.token_url policies generated d given)
          (routers_of application.included)
        ∙ all-routers_of (router_is_there texts generated) application.included
        ∙ there in
      let known : any (equality.same_module m) application.domain_modules ≡ true =
        rw b.same_modules (any-mem (equality.same_module m) m a.modules same listed) in
      (is_ok_iff (assert_module_contract texts equality application (ok d) m no_expectation)).0 (
        is_ok-then _ _ (is_ok-check_that _ _ ∙ known) (
          is_ok-then _ _
            (is_ok-then _ _ (is_ok-for_routes texts d m.routers ∙ routes_installed d there') (
              is_ok-then _ _ (each _ _ m.resources ∙ resources_installed) (
                is_ok-then _ _ (each _ _ m.readiness_checks ∙ checks_installed)
                  (each _ _ m.error_mappers ∙ mappers_installed))))
            refl))
