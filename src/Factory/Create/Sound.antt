-- ===== src/Factory/Create/Sound.antt =====
-- What holds of an application that `create_app` makes.
use fastapi_core.Prelude.{
  string_eq, pair_eq, true, false, not, ◌&&◌, ◌≡◌, is_some, distinct, all, map, refl, arith, inl,
  inr, or_else,
}
use fastapi_core.Result.{ok, is_ok, Result-cases, raise_if, value_error, >>=-eq-ok, ◌>>◌}
use fastapi_core.Resources.{resource_name, reserved_resource_names}
use fastapi_core.Resources.Validation.{is_acceptable}
use fastapi_core.Store.{ReadinessRegistry}
use fastapi_core.Readiness.Registry.{IsValid}
use mathlib.Core.Path.{subst}
use fastapi_core.Factory.Create.Parts.{create_app-Built}
use fastapi_core.Factory.Create.Valid.{
  HasValid, configure_option-HasValid, register_checks-IsValid, make_registry-are_acceptable,
}
use fastapi_core.Runtime.{App}
use fastapi_core.Factory.{validate_routes, validate_extension_names}
use fastapi_core.Factory.Routes.{all_contracts, all_ids, validate_routes_iff}
use fastapi_core.Factory.Names.{extension_names, validate_extension_names_iff}
use fastapi_core.Factory.Plan.{
  Arguments, Environment, Application, Plan, all_routers, all_resources, prepare, validate_all,
}
use fastapi_core.Factory.Create.{create_app, equip, configure, registry_of, new_app}

pub record IsSound (environment : Environment) (a : Arguments) (plan : Plan)
    (application : Application) : Type 0 where
  pub contracts : distinct (all_contracts (all_routers environment a)) ≡ true
  pub ids : distinct (all_ids (all_routers environment a)) ≡ true
  pub names :
      distinct (
        extension_names
          (all_resources environment a plan)
          plan.flattened.readiness_checks
          a.runtime)
      ≡ true
  pub auth :
      (a.include_auth_router && is_some a.runtime && not (is_some application.app.auth_provider))
      ≡ false
  pub registry : HasValid application.app
  pub resources :
      (all (is_acceptable reserved_resource_names) application.resource_registry.resources
        && distinct (map resource_name application.resource_registry.resources))
      ≡ true

module _ (environment : Environment) (a : Arguments) where
  validate_all_lem :
      (plan : Plan)
      → validate_all environment a plan ≡ ok tt
      → (is_ok (validate_routes (all_routers environment a)) ≡ true)
        × (is_ok (
              validate_extension_names
                (all_resources environment a plan)
                plan.flattened.readiness_checks
                a.runtime
                plan.runtime_plan)
            ≡ true)
  unfolding validate_all
  validate_all_lem plan h =
      let routes = validate_routes (all_routers environment a) in
      let names =
        validate_extension_names (all_resources environment a plan) plan.flattened.readiness_checks
          a.runtime plan.runtime_plan in
      elim (Result-cases routes) [
        | inr (x, raised) ↦ ground arith
        | inl (u, passed) ↦ elim (Result-cases names) [
          | inr (x, raised) ↦ ground arith
          | inl (v, good) ↦ (ground arith, ground arith)
        ]
      ]

  equip_lem :
      (app app' : _)
      → equip environment a app ≡ ok app'
      → (a.include_auth_router && is_some a.runtime && not (is_some app'.auth_provider)) ≡ false
  unfolding equip
  equip_lem app app' h = elim (Result-cases (configure environment a.runtime app)) [
    | inr (x, raised) ↦ ground arith
    | inl (app1, e) ↦ equipped app1 (ground arith)
  ]
    where
      equipped :
          (app1 : App)
          → let app2 = record app1 { auth_provider = or_else a.auth_provider app1.auth_provider } in
            (raise_if
                  (a.include_auth_router && is_some a.runtime && not (is_some app2.auth_provider))
                  (value_error "auth router requires a configured auth provider")
                >> ok app2)
              ≡ ok app'
            → (a.include_auth_router && is_some a.runtime && not (is_some app'.auth_provider))
              ≡ false
      equipped app1 h = ground arith

  registry_of-IsValid :
      (plan : Plan) (checks : ReadinessRegistry)
      → registry_of environment a plan ≡ ok checks
      → IsValid checks
  registry_of-IsValid plan checks h =
      register_checks-IsValid environment plan.flattened.readiness_checks _ checks h
        (record { unique = refl; entries = tt })

  equip-HasValid :
      (app app' : App) → equip environment a app ≡ ok app' → HasValid app → HasValid app'
  unfolding equip
  equip-HasValid app app' h v =
      let (app1, e, rest) = >>=-eq-ok (configure environment a.runtime app) _ h in
      subst IsValid (ground arith) (configure_option-HasValid environment a.runtime app app1 e v)

  -- If an application is made, the first part of `create_app` gave a plan for it; its routes have
  -- different contracts and operation ids; its extensions have different names; if it has the
  -- authentication router and a runtime, it has an authentication provider; every check of its
  -- readiness registry stands once, under its own name, which is not blank, with a timeout that is
  -- positive if it has one; and its resources have different names, neither blank nor reserved, and
  -- no timeout that is not positive.
  pub create_app-IsSound :
      (application : Application)
      → create_app environment a ≡ ok application
      → (plan : Plan) × (prepare environment a ≡ ok plan) × IsSound environment a plan application
  create_app-IsSound application h =
      let (plan, prepared, validated, b) = create_app-Built environment a application h in
      let (routes, names) = validate_all_lem plan validated in
      (
        plan,
        prepared,
        record {
          contracts = ground (arith, routes, validate_routes_iff (all_routers environment a));
          ids = ground (arith, routes, validate_routes_iff (all_routers environment a));
          names = ground (
            arith,
            names,
            validate_extension_names_iff (all_resources environment a plan)
                plan.flattened.readiness_checks a.runtime plan.runtime_plan,
          );
          auth = equip_lem (new_app environment a b.checks) application.app b.equipped;
          registry =
              equip-HasValid (new_app environment a b.checks) application.app b.equipped
                (registry_of-IsValid plan b.checks b.registered);
          resources =
              make_registry-are_acceptable reserved_resource_names
                (all_resources environment a plan) application.resource_registry b.made;
        },
      )
