-- ===== src/Factory/Create/Valid.antt =====
-- About the registries that `create_app` fills (fastapi_core/factory.py).
use mathlib.Core.Path.{subst}
use fastapi_core.Prelude.{
  String, string_eq, true, ◌≡◌, ◌&&◌, Option, none, some, List, [], ◌∷◌, inl, inr, all, distinct,
  map, arith,
}
use fastapi_core.Result.{ok, Result-cases}
use fastapi_core.Store.{ReadinessCheckSpec, ReadinessRegistry}
use fastapi_core.Readiness.{register}
use fastapi_core.Readiness.Registry.{IsValid, register-IsValid}
use fastapi_core.Resources.{
  Resource, ResourceRegistry, managed_resource, to_bindings, validate, make_registry, resource_name,
}
use fastapi_core.Resources.Validation.{is_acceptable, validate_iff}
use fastapi_core.Runtime.{App, ServiceRuntime, missing_error, duplicate_error, runtime_specs}
use fastapi_core.Runtime.Configuring.{with_registry, register_loop, configure_service_runtime}
use fastapi_core.Factory.Plan.{Environment}
use fastapi_core.Factory.Create.{register_checks, configure}

abbrev pub HasValid : App → Type 0
HasValid app = IsValid app.store.readiness

register_loop-HasValid :
    (specs : List ReadinessCheckSpec) (app : App)
    → HasValid app
    → HasValid (register_loop specs app).1
unfolding register_loop
register_loop-HasValid [] app h = h
register_loop-HasValid (spec ∷ specs) app h =
    elim (Result-cases (register spec app.store.readiness)) [
      | inr (e, refused) ↦ rw refused h
      | inl (registry, accepted) ↦ rw accepted (
          register_loop-HasValid specs (with_registry app registry)
            (register-IsValid spec app.store.readiness registry h accepted))
    ]

configure-HasValid :
    (runtime : ServiceRuntime) (app : App)
    → HasValid app
    → HasValid (configure_service_runtime runtime app).1
unfolding configure_service_runtime
configure-HasValid runtime app h = elim (Result-cases (missing_error runtime)) [
  | inr (e, missing) ↦ rw missing h
  | inl (done, complete) ↦
      let specs = runtime_specs runtime runtime.checks in
      elim (Result-cases (duplicate_error specs app.store.readiness)) [
        | inr (e, duplicate) ↦ rw (complete, duplicate) h
        | inl (done', fresh) ↦
            let kept = register_loop-HasValid specs app h in
            elim (Result-cases (register_loop specs app).0) [
              | inr (e, refused) ↦ rw (complete, fresh, refused) kept
              | inl (done'', registered) ↦ rw (complete, fresh, registered) kept
            ]
      ]
]

pub configure_option-HasValid :
    (environment : Environment) (runtime : Option ServiceRuntime) (app app' : App)
    → configure environment runtime app ≡ ok app'
    → HasValid app
    → HasValid app'
configure_option-HasValid environment none app app' h v =
    subst HasValid {x = app} {y = app'} (ground arith) v
configure_option-HasValid environment (some runtime) app app' h v =
    let kept = configure-HasValid runtime app v in
    elim (Result-cases (configure_service_runtime runtime app).0) [
      | inr (e, refused) ↦ ground arith
      | inl (done, configured) ↦
          subst HasValid {x = (configure_service_runtime runtime app).1} {y = app'} (ground arith)
            kept
    ]

pub register_checks-IsValid :
    (environment : Environment) (specs : List ReadinessCheckSpec)
    (registry registry' : ReadinessRegistry)
    → register_checks environment specs registry ≡ ok registry'
    → IsValid registry
    → IsValid registry'
unfolding register_checks
register_checks-IsValid environment [] registry registry' h v = subst IsValid (ground arith) v
register_checks-IsValid environment (spec ∷ specs) registry registry' h v =
    elim (Result-cases (register spec registry)) [
      | inr (e, refused) ↦ ground arith
      | inl (next, accepted) ↦
          register_checks-IsValid environment specs next registry' (ground arith)
            (register-IsValid spec registry next v accepted)
    ]

-- The resources of a registry that is made are acceptable, and their names are different.
pub make_registry-are_acceptable :
    (reserved : List String) (resources : List Resource) (made : ResourceRegistry)
    → make_registry reserved resources ≡ ok made
    → (all (is_acceptable reserved) made.resources && distinct (map resource_name made.resources))
      ≡ true
unfolding make_registry
make_registry-are_acceptable reserved resources made h =
    elim (Result-cases (to_bindings resources)) [
      | inr (e, refused) ↦ ground arith
      | inl (bindings, bound) ↦
          let managed = map managed_resource bindings in
          elim (Result-cases (validate reserved [] managed)) [
            | inr (e, refused) ↦ ground arith
            | inl (done, passed) ↦
                subst
                  (λ rs.
                    (all (is_acceptable reserved) rs && distinct (map resource_name rs)) ≡ true)
                  {x = managed} {y = made.resources} (ground arith)
                  ((validate_iff reserved managed).0 passed)
          ]
    ]
