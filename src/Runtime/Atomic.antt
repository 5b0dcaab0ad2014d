-- ===== src/Runtime/Atomic.antt =====
-- Configuring a runtime registers all of its checks, or changes nothing.
use fastapi_core.Prelude.{
  String, string_eq, true, false, ◌≡◌, refl, ap, ◌∙◌, inl, inr, Option, none, some, List, [], ◌∷◌,
  ◌++◌, map, filter, All, distinct, contains, is_empty, is_some, arith, append-nil, append_assoc,
  Bool-cases,
}
use fastapi_core.Text.{is_blank}
use fastapi_core.Dict.{Dict, keys, get, has}
use fastapi_core.Dict.Laws.{get-append_ne}
use fastapi_core.Result.{Result, ok, err}
use fastapi_core.Store.{Callable, ReadinessCheckSpec}
use fastapi_core.Readiness.{is_bad_timeout}
use fastapi_core.Readiness.Registry.{register_iff, extended}
use fastapi_core.Runtime.{
  App, ServiceRuntime, runtime_specs, spec_names, duplicate_names, missing_checks,
}
use fastapi_core.Runtime.Configuring.{
  with_registry, register_loop, set_runtime, configure_service_runtime,
}

abbrev pub entries : List ReadinessCheckSpec → Dict String ReadinessCheckSpec
entries specs = map (λ s. (s.name, s)) specs

-- The names of the services: distinct, none blank.
abbrev pub IsNamed : List String → Type 0
IsNamed names = (distinct names ≡ true) × All (λ n. is_blank n ≡ false) names

abbrev with_specs : App → List ReadinessCheckSpec → App
with_specs app specs =
    with_registry app
      (record app.store.readiness { specs = app.store.readiness.specs ++ entries specs })

none_of_not_has {ℓ} : {A : Type ℓ} (o : Option A) → is_some o ≡ false → o ≡ none
none_of_not_has none h = refl
none_of_not_has (some a) h = cc

names_new :
    (spec : ReadinessCheckSpec) (d : Dict String ReadinessCheckSpec) (names : List String)
    → contains spec.name names ≡ false
    → All (λ n. has n d ≡ false) names
    → All (λ n. has n (d ++ (spec.name, spec) ∷ []) ≡ false) names
names_new spec d [] other new = tt
names_new spec d (n ∷ ns) other (here, later) = (
  ap is_some (get-append_ne n spec.name spec d (none_of_not_has (get n d) here) (ground arith)),
  names_new spec d ns (ground arith) later,
)

register_loop_lem :
    (specs : List ReadinessCheckSpec) (app : App)
    → IsNamed (spec_names specs)
    → All (λ s. is_bad_timeout s.timeout_seconds ≡ false) specs
    → All (λ n. has n app.store.readiness.specs ≡ false) (spec_names specs)
    → register_loop specs app ≡ (ok tt, with_specs app specs)
unfolding register_loop
register_loop_lem [] app named timely new = rw append-nil
register_loop_lem (s ∷ ss) app (unique, solid) timely new =
    let registry = app.store.readiness in
    let app' = with_registry app (extended s registry) in
    let e = (register_iff s registry (extended s registry)).1 ((solid.0, new.0, timely.0), refl) in
    rw e (
      register_loop_lem ss app' (ground arith, solid.1) timely.1
        (names_new s registry.specs (spec_names ss) (ground arith) new.1)
      ∙ rw append_assoc)

runtime_names :
    (runtime : ServiceRuntime) (checks : Dict String Callable)
    → spec_names (runtime_specs runtime checks) ≡ keys checks
unfolding runtime_specs
runtime_names runtime [] = refl
runtime_names runtime ((n, c) ∷ checks) = ap (λ ns. n ∷ ns) (runtime_names runtime checks)

runtime_timely :
    (runtime : ServiceRuntime) (checks : Dict String Callable)
    → All (λ s. is_bad_timeout s.timeout_seconds ≡ false) (runtime_specs runtime checks)
unfolding runtime_specs
runtime_timely runtime [] = tt
runtime_timely runtime ((n, c) ∷ checks) = (refl, runtime_timely runtime checks)

none_duplicate :
    (names : List String) (d : Dict String ReadinessCheckSpec)
    → is_empty (filter (λ n. has n d) names) ≡ true
    → All (λ n. has n d ≡ false) names
none_duplicate [] d h = tt
none_duplicate (n ∷ ns) d h = (ground arith, none_duplicate ns d (ground arith))

-- What configuring leaves: everything as it was beside an exception, or all checks registered, and
-- the runtime and its provider set.
abbrev pub AllOrNothing : ServiceRuntime → App → Result (Unit {0}) × App → Type 0
AllOrNothing runtime app (err e, app') = app' ≡ app
AllOrNothing runtime app (ok _, app') =
    app' ≡ set_runtime runtime (with_specs app (runtime_specs runtime runtime.checks))

-- With services of distinct names that are not blank, configuring a runtime either raises and
-- changes nothing, or adds a spec for every check behind those that were there and sets the
-- runtime and its provider.
pub configure_service_runtime_atomic :
    (runtime : ServiceRuntime) (app : App)
    → IsNamed (keys runtime.checks)
    → AllOrNothing runtime app (configure_service_runtime runtime app)
unfolding configure_service_runtime
configure_service_runtime_atomic runtime app named =
    let specs = runtime_specs runtime runtime.checks in
    elim (Bool-cases (is_empty (missing_checks runtime))) [
      | inr missing ↦ rw missing refl
      | inl complete ↦ elim (Bool-cases (is_empty (duplicate_names specs app.store.readiness))) [
        | inr duplicate ↦ rw (complete, duplicate) refl
        | inl fresh ↦
            let new =
              none_duplicate (spec_names specs) app.store.readiness.specs
                (unfold duplicate_names in fresh) in
            let done =
              register_loop_lem specs app (rw (runtime_names runtime runtime.checks) named)
                (runtime_timely runtime runtime.checks) new in
            rw (complete, fresh, done) refl
      ]
    ]
