-- ===== src/Factory/Create/Parts.antt =====
-- What `create_app` comes to, when it makes an application: each of its parts succeeds.
use fastapi_core.Prelude.{◌≡◌, sym, ap, ◌∙◌, arith}
use fastapi_core.Result.{ok, >>=-eq-ok}
use fastapi_core.Store.{ReadinessRegistry}
use fastapi_core.Resources.{ResourceRegistry, make_registry, reserved_resource_names}
use fastapi_core.Runtime.{App}
use fastapi_core.Http.Handlers.{HttpApp}
use fastapi_core.Factory.Plan.{
  Arguments, Environment, Application, Plan, all_resources, prepare, validate_all,
}
use fastapi_core.Factory.Create.{
  build, create_app, equip, finish, http_of, include_all, registry_of, new_app,
}

module _ (environment : Environment) (a : Arguments) where
  pub record Finished (plan : Plan) (resource_registry : ResourceRegistry) (app : App)
      (application : Application) : Type 0 where
    pub http : HttpApp
    pub mapped : http_of environment a plan ≡ ok http
    pub included : include_all environment a plan http ≡ ok (application.included, application.http)
    pub same_app : application.app ≡ app
    pub same_resources : application.resource_registry ≡ resource_registry
    pub same_modules : application.domain_modules ≡ a.modules

  finish_lem :
      (plan : Plan) (resource_registry : ResourceRegistry) (app : App) (application : Application)
      → finish environment a plan resource_registry app ≡ ok application
      → Finished plan resource_registry app application
  unfolding finish
  finish_lem plan resource_registry app application h =
      let (http, mapped, rest) = >>=-eq-ok (http_of environment a plan) _ h in
      let (result, included, same) = >>=-eq-ok (include_all environment a plan http) _ rest in
      record {
        http = http;
        mapped = mapped;
        included = included ∙ ground arith;
        same_app = ground arith;
        same_resources = ground arith;
        same_modules = ground arith;
      }

  pub record Built (plan : Plan) (application : Application) : Type 0 where
    pub checks : ReadinessRegistry
    pub registered : registry_of environment a plan ≡ ok checks
    pub made :
        make_registry reserved_resource_names (all_resources environment a plan)
        ≡ ok application.resource_registry
    pub equipped : equip environment a (new_app environment a checks) ≡ ok application.app
    pub http : HttpApp
    pub mapped : http_of environment a plan ≡ ok http
    pub included : include_all environment a plan http ≡ ok (application.included, application.http)
    pub same_modules : application.domain_modules ≡ a.modules

  build_lem :
      (plan : Plan) (application : Application)
      → build environment a plan ≡ ok application
      → Built plan application
  unfolding build
  build_lem plan application h =
      let make = make_registry reserved_resource_names (all_resources environment a plan) in
      let (checks, registered, h1) = >>=-eq-ok (registry_of environment a plan) _ h in
      let (made, e, h2) = >>=-eq-ok make _ h1 in
      let (app, equipped, finished) =
        >>=-eq-ok (equip environment a (new_app environment a checks))
          (finish environment a plan made) h2 in
      let f = finish_lem plan made app application finished in
      record {
        checks = checks;
        registered = registered;
        made = e ∙ ap ok (sym f.same_resources);
        equipped = equipped ∙ ap ok (sym f.same_app);
        http = f.http;
        mapped = f.mapped;
        included = f.included;
        same_modules = f.same_modules;
      }

  pub create_app-Built :
      (application : Application)
      → create_app environment a ≡ ok application
      → (plan : Plan) × (prepare environment a ≡ ok plan)
        × (validate_all environment a plan ≡ ok tt)
        × Built plan application
  unfolding create_app
  create_app-Built application h =
      let (plan, prepared, rest) = >>=-eq-ok (prepare environment a) _ h in
      let (done, validated, built) =
        >>=-eq-ok (validate_all environment a plan) (λ _. build environment a plan) rest in
      (plan, prepared, validated, build_lem plan application built)
