-- ===== src/Tests/Steps.antt =====
-- The steps of concurrent tasks.
use fastapi_core.Prelude.{String, string_eq, true, ◌≡◌, refl, List, [], ◌∷◌, map}
use fastapi_core.Dict.{get}
use fastapi_core.Result.{ok}
use fastapi_core.Store.{serve}
use fastapi_core.Readiness.Run.{Runner}
use fastapi_core.Resources.{resource_name}
use fastapi_core.Resources.Running.{close}
use fastapi_core.Resources.Unregistered.{belongs, unless, close_unregisters}
use fastapi_core.Resources.Steps.{
  Step, asks, registers, unregisters, holds, pops, unregisters_own, take_all, Reaches,
}
use fastapi_core.Resources.Steps.Consistent.{IsConsistent, Follows, take_all-IsConsistent}
use fastapi_core.Resources.Steps.Stepwise.{none-Reaches, then-Reaches}
use fastapi_core.Resources.Steps.Interleaved.{RunsChecks}
use fastapi_core.Lifecycle.{managed_lifespan}
use fastapi_core.Lifecycle.Steps.{managed_lifespan-Reaches}
use fastapi_core.Tests.Values.{pool, spec, app_value, calm, stuck, empty_store}
use fastapi_core.Tests.Managed.{resource, two_resources, started, app, docmesh, lifespan}

abbrev names : List String
names = map resource_name two_resources

-- While the resources are closed, another task registers a check and takes a check of them away.
abbrev steps : List Step
steps =
    holds (resource "pool") pool
    ∷ registers (spec "database")
    ∷ holds (resource "cache") pool
    ∷ pops (resource "cache")
    ∷ unregisters "pool"
    ∷ asks serve
    ∷ unregisters_own (resource "cache") pool
    ∷ registers (spec "pool")
    ∷ pops (resource "pool")
    ∷ unregisters_own (resource "pool") pool
    ∷ []

empty_store-IsConsistent : IsConsistent names empty_store
empty_store-IsConsistent = record {
  registry = record { unique = refl; entries = tt };
  unique = refl;
  known = refl;
}

take_all-IsConsistent_example :
    IsConsistent names (take_all calm steps empty_store)
    × Follows empty_store (take_all calm steps empty_store)
take_all-IsConsistent_example =
    take_all-IsConsistent names calm steps empty_store refl empty_store-IsConsistent

close_unregisters_example :
    get "pool" (close calm two_resources started).1.readiness.specs
    ≡ unless (belongs "pool" started.instances two_resources) (get "pool" started.readiness.specs)
close_unregisters_example = close_unregisters calm "pool" two_resources started refl

-- Runs the checks one after the other.
abbrev sequential : Runner
sequential [] required parallel overall f = (ok (record { ok = true; services = [] }), f)
sequential ((name, check) ∷ checks) required parallel overall f =
    sequential checks required parallel overall (check f).1

sequential-RunsChecks : RunsChecks stuck names sequential
sequential-RunsChecks [] required parallel overall only f = none-Reaches stuck names f.store
sequential-RunsChecks ((name, check) ∷ checks) required parallel overall only f =
    let f' = (check f).1 in
    then-Reaches stuck names f.store f'.store
      (sequential checks required parallel overall f').1.store (only.0 f)
      (sequential-RunsChecks checks required parallel overall only.1 f')

managed_lifespan-Reaches_example :
    Reaches stuck names app.store
      (managed_lifespan stuck sequential docmesh app_value lifespan app).1.store
managed_lifespan-Reaches_example =
    managed_lifespan-Reaches stuck names sequential docmesh sequential-RunsChecks app_value lifespan
      refl app
