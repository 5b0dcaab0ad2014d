-- ===== src/Factory/Create/Checks.antt =====
-- The readiness checks of the modules, in the registry of an application.
use mathlib.Core.Path.{subst}
use fastapi_core.Prelude.{
  String, string_eq, Bool, true, ◌≡◌, refl, Option, none, some, List, [], ◌∷◌, all, inl, inr,
  eq_iff, arith,
}
use fastapi_core.Dict.{get, has}
use fastapi_core.Dict.Laws.{get-append}
use fastapi_core.Result.{ok, Result-cases, >>=-eq-ok}
use fastapi_core.Store.{ReadinessCheckSpec, ReadinessRegistry}
use fastapi_core.Readiness.{register}
use fastapi_core.Readiness.Registry.{register_iff}
use fastapi_core.Runtime.{App, ServiceRuntime, missing_error, duplicate_error, runtime_specs}
use fastapi_core.Runtime.Configuring.{with_registry, register_loop, configure_service_runtime}
use fastapi_core.Factory.Plan.{Environment, Arguments}
use fastapi_core.Factory.Create.{register_checks, configure, equip}

abbrev pub holds : ReadinessRegistry → String → Bool
holds registry k = has k registry.specs

abbrev pub Keeps : ReadinessRegistry → ReadinessRegistry → Type 0
Keeps r r' = (k : String) → holds r k ≡ true → holds r' k ≡ true

register_lem :
    (spec : ReadinessCheckSpec) (r r' : ReadinessRegistry)
    → register spec r ≡ ok r'
    → Keeps r r' × (holds r' spec.name ≡ true)
unfolding get
register_lem spec r r' h =
    let (fits, e) = (register_iff spec r r').0 h in
    (
      λ k there. rw e (ground (arith, get-append k r.specs ((spec.name, spec) ∷ []))),
      rw e (
          ground (
            arith,
            get-append spec.name r.specs ((spec.name, spec) ∷ []),
            eq_iff spec.name spec.name,
          )),
    )

-- The checks that are registered are there, and those of before stay.
pub register_checks_lem :
    (environment : Environment) (specs : List ReadinessCheckSpec) (r r' : ReadinessRegistry)
    → register_checks environment specs r ≡ ok r'
    → Keeps r r' × (all (λ s. holds r' s.name) specs ≡ true)
unfolding register_checks
register_checks_lem environment [] r r' h =
    (λ k here. subst (λ q. holds q k ≡ true) {x = r} {y = r'} (ground arith) here, refl)
register_checks_lem environment (spec ∷ specs) r r' h =
    let (next, accepted, rest) =
      >>=-eq-ok (register spec r) (register_checks environment specs) h in
    let (kept, there) = register_lem spec r next accepted in
    let (keeps, all_there) = register_checks_lem environment specs next r' rest in
    (λ k here. keeps k (kept k here), rw (keeps spec.name there) all_there)

abbrev pub AppKeeps : App → App → Type 0
AppKeeps app app' = Keeps app.store.readiness app'.store.readiness

register_loop_keeps :
    (specs : List ReadinessCheckSpec) (app : App) → AppKeeps app (register_loop specs app).1
unfolding register_loop
register_loop_keeps [] app k h = h
register_loop_keeps (spec ∷ specs) app k h =
    elim (Result-cases (register spec app.store.readiness)) [
      | inr (e, refused) ↦ rw refused h
      | inl (registry, accepted) ↦ rw accepted (
          register_loop_keeps specs (with_registry app registry) k
            ((register_lem spec app.store.readiness registry accepted).0 k h))
    ]

configure_keeps :
    (runtime : ServiceRuntime) (app : App) → AppKeeps app (configure_service_runtime runtime app).1
unfolding configure_service_runtime
configure_keeps runtime app k h = elim (Result-cases (missing_error runtime)) [
  | inr (e, missing) ↦ rw missing h
  | inl (done, complete) ↦
      let specs = runtime_specs runtime runtime.checks in
      elim (Result-cases (duplicate_error specs app.store.readiness)) [
        | inr (e, duplicate) ↦ rw (complete, duplicate) h
        | inl (done', fresh) ↦
            let kept = register_loop_keeps specs app k h in
            elim (Result-cases (register_loop specs app).0) [
              | inr (e, refused) ↦ rw (complete, fresh, refused) kept
              | inl (done'', registered) ↦ rw (complete, fresh, registered) kept
            ]
      ]
]

configure_option_keeps :
    (environment : Environment) (runtime : Option ServiceRuntime) (app app' : App)
    → configure environment runtime app ≡ ok app'
    → AppKeeps app app'
configure_option_keeps environment none app app' h k there =
    subst (λ a. holds a.store.readiness k ≡ true) {x = app} {y = app'} (ground arith) there
configure_option_keeps environment (some runtime) app app' h k there =
    let kept = configure_keeps runtime app k there in
    elim (Result-cases (configure_service_runtime runtime app).0) [
      | inr (e, refused) ↦ ground arith
      | inl (done, configured) ↦
          subst (λ a. holds a.store.readiness k ≡ true)
            {x = (configure_service_runtime runtime app).1} {y = app'} (ground arith) kept
    ]

-- A runtime and an authentication provider take no check away.
pub equip_keeps :
    (environment : Environment) (a : Arguments) (app app' : App)
    → equip environment a app ≡ ok app'
    → AppKeeps app app'
unfolding equip
equip_keeps environment a app app' h k there =
    let (app1, e, rest) = >>=-eq-ok (configure environment a.runtime app) _ h in
    let kept = configure_option_keeps environment a.runtime app app1 e k there in
    subst (λ r. holds r k ≡ true) {x = app1.store.readiness} {y = app'.store.readiness}
      (ground arith) kept
