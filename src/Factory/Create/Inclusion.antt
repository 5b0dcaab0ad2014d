-- ===== src/Factory/Create/Inclusion.antt =====
-- Which routers `create_app` includes.
use mathlib.Core.List.{map-append}
use fastapi_core.Prelude.{
  not, ◌&&◌, Option, none, some, is_some, List, [], ◌∷◌, ◌++◌, map, ◌≡◌, refl, sym, ap, ◌∙◌,
  append_assoc, append-nil, Bool-cases, inl, inr, if◌then◌else◌,
}
use fastapi_core.Result.{ok, >>=-eq-ok}
use fastapi_core.Transport.{TransportPolicy, resolve}
use fastapi_core.Http.Handlers.{HttpApp}
use fastapi_core.Factory.{Router, DomainModule}
use fastapi_core.Factory.Plan.{
  Arguments, Application, Environment, Included, Plan, all_routers, module_routers,
}
use fastapi_core.Factory.Create.Parts.{create_app-Built}
use fastapi_core.Factory.Create.{
  create_app, plain_router, record_all, include_routers, include_module, include_modules,
  own_routers, include_all,
}

abbrev pub routers_of : List Included → List Router
routers_of included = map (λ i. i.router) included

routers_of-map :
    (f : Router → Included)
    → ((r : Router) → (f r).router ≡ r)
    → (rs : List Router) → routers_of (map f rs) ≡ rs
routers_of-map f h [] = refl
routers_of-map f h (r ∷ rs) = rw (h r, routers_of-map f h rs) refl

module _ (environment : Environment) where
  record_all_types :
      (rs : List Router) (policy : TransportPolicy) (http : HttpApp)
      → (record_all environment rs policy http).error_mapper_types ≡ http.error_mapper_types
  record_all_types [] policy http = refl
  record_all_types (r ∷ rs) policy http = record_all_types rs policy _

  include_routers_lem :
      (a : Arguments) (base : TransportPolicy) (http : HttpApp)
      → let (included, http') = include_routers environment a base http in
        (routers_of included ≡ a.routers) × (http'.error_mapper_types ≡ http.error_mapper_types)
  unfolding include_routers
  include_routers_lem a base http = given a.transport_policy refl
    where
      given :
          (policy : Option TransportPolicy)
          → a.transport_policy ≡ policy
          → let (included, http') = include_routers environment a base http in
            (routers_of included ≡ a.routers) × (http'.error_mapper_types ≡ http.error_mapper_types)
      given none h = rw (h, include_routers) (routers_of-map _ (λ r. refl) a.routers, refl)
      given (some policy) h =
          rw (h, include_routers)
            (routers_of-map _ (λ r. refl) a.routers, record_all_types a.routers base http)

  include_module_lem :
      (a : Arguments) (m : DomainModule) (policy : TransportPolicy) (http : HttpApp)
      → let (included, http') = include_module environment a m policy http in
        (routers_of included ≡ m.routers) × (http'.error_mapper_types ≡ http.error_mapper_types)
  include_module_lem a m policy http =
      elim (Bool-cases (not (is_some a.transport_policy) && not (is_some m.transport_policy))) [
        | inl plain ↦ rw plain (routers_of-map _ (λ r. refl) m.routers, refl)
        | inr declared ↦
            rw declared
              (routers_of-map _ (λ r. refl) m.routers, record_all_types m.routers policy http)
      ]

  include_modules_lem :
      (a : Arguments) (base : TransportPolicy) (ms : List DomainModule)
      (included included' : List Included) (http http' : HttpApp)
      → include_modules environment a base ms (included, http) ≡ ok (included', http')
      → (routers_of included' ≡ routers_of included ++ module_routers ms)
        × (http'.error_mapper_types ≡ http.error_mapper_types)
  unfolding include_modules
  include_modules_lem a base [] included included' http http' h =
      let e : (included, http) ≡ (included', http') = cc in
      (
        ap (λ (p : List Included × HttpApp). routers_of p.0) (sym e)
            ∙ sym (append-nil (routers_of included)),
        ap (λ (p : List Included × HttpApp). p.1.error_mapper_types) (sym e),
      )
  include_modules_lem a base (m ∷ ms) included included' http http' h =
      let (policy, resolved, rest) = >>=-eq-ok (resolve (some base) m.transport_policy) _ h in
      let made = include_module environment a m policy http in
      let here = include_module_lem a m policy http in
      let ih = include_modules_lem a base ms (included ++ made.0) included' made.1 http' rest in
      (
        ih.0
            ∙ ap (λ rs. rs ++ module_routers ms)
                (map-append (λ i. i.router) included made.0
                  ∙ ap (λ rs. routers_of included ++ rs) here.0)
            ∙ append_assoc (routers_of included) m.routers (module_routers ms),
        ih.1 ∙ here.1,
      )

  pub include_all_lem :
      (a : Arguments) (plan : Plan) (http http' : HttpApp) (included : List Included)
      → include_all environment a plan http ≡ ok (included, http')
      → (routers_of included ≡ all_routers environment a)
        × (http'.error_mapper_types ≡ http.error_mapper_types)
  include_all_lem a plan http http' included h =
      let base = plan.base_transport_policy in
      let given = include_routers environment a base http in
      let first = include_routers_lem a base http in
      let rest =
        include_modules_lem a base a.modules (own_routers environment a ++ given.0) included given.1
          http' h in
      (
        rest.0
            ∙ ap (λ rs. rs ++ module_routers a.modules)
                (map-append (λ i. i.router) (own_routers environment a) given.0
                  ∙ ap (λ rs. rs ++ routers_of given.0)
                      (routers_of-map (plain_router environment []) (λ r. refl)
                        (environment.health_router
                          ∷ (if a.include_auth_router then environment.auth_router ∷ [] else [])))
                  ∙ ap
                      (λ rs.
                        (environment.health_router
                          ∷ (if a.include_auth_router then environment.auth_router ∷ [] else []))
                        ++ rs)
                      first.0),
        rest.1 ∙ first.1,
      )

  -- The application that `create_app` makes includes exactly the routers that were validated, in their
  -- order: the health router, the authentication router if it is asked for, the routers that were given, and
  -- those of the modules.
  pub create_app-includes :
      (a : Arguments) (application : Application)
      → create_app environment a ≡ ok application
      → routers_of application.included ≡ all_routers environment a
  create_app-includes a application created =
      let (plan, prepared, validated, b) = create_app-Built environment a application created in
      (include_all_lem a plan b.http application.http application.included b.included).0
