-- ===== src/Tests/Checks.antt =====
-- The readiness registry, the running of checks and the readiness endpoint.
use mathlib.Core.Path.{subst}
use fastapi_core.Prelude.{
  String, string_eq, Bool, true, false, ◌≡◌, refl, none, some, List, [], ◌∷◌, any, all, arith,
  contains, find,
}
use fastapi_core.Prelude.Int.{pos}
use fastapi_core.Text.{is_free}
use fastapi_core.Dict.{Dict, get}
use fastapi_core.Docmesh.{ServiceHealthStatus, HealthCheckResult}
use fastapi_core.Result.{Result, ok, err, key_error, health_check_error, is_ok}
use fastapi_core.Action.{Action}
use fastapi_core.Store.{ReadinessRegistry, Store}
use fastapi_core.Readiness.{resolve_spec, merge_structured_results}
use fastapi_core.Readiness.Run.{Frame, Runner, is_failure, checks_of, run, check}
use fastapi_core.Readiness.Registry.{resolve_spec-dotted}
use fastapi_core.Readiness.Merge.{is_good, Agrees, IsNested, merge_structured_results_verdict}
use fastapi_core.Readiness.Contract.{Reported, Conduct, check-Reported}
use fastapi_core.HealthRouter.{Response, Named, report}
use fastapi_core.HealthRouter.Report.{IsReport, report-IsReport}
use fastapi_core.Tests.Values.{down, spec, database_registry, empty_store}

abbrev dotted_registry : ReadinessRegistry
dotted_registry = record {
  default_timeout_seconds = none;
  specs = ("eu.database", spec "eu.database") ∷ [];
}

resolve_spec-dotted_example :
    resolve_spec "eu.database.primary" dotted_registry ≡ err (key_error "eu")
unfolding is_free get
resolve_spec-dotted_example =
    resolve_spec-dotted "eu" "database" "primary" dotted_registry refl refl refl

abbrev status : String → Bool → Bool → ServiceHealthStatus
status name good required = record {
  service = name;
  ok = good;
  latency_ms = some 4;
  required = required;
  error = none;
  error_type = none;
}

abbrev nested : HealthCheckResult
nested = record { ok = false; services = status "database.primary" false true ∷ [] }

abbrev outer : HealthCheckResult
outer = record { ok = false; services = status "database" false true ∷ [] }

nested-Agrees : Agrees (("database", nested) ∷ []) (status "database" false true)
unfolding get
nested-Agrees n found =
    subst (λ (m : HealthCheckResult). (m.ok ≡ false) × IsNested true m) {x = nested} {y = n}
      (ground arith) (refl, record { good = λ h. cc; flags = (refl, tt) })

merge_structured_results_verdict_example :
    let merged = merge_structured_results outer (("database", nested) ∷ []) in
    (merged.ok ≡ all is_good outer.services)
    × (any is_failure merged.services ≡ any is_failure outer.services)
merge_structured_results_verdict_example =
    merge_structured_results_verdict outer (("database", nested) ∷ []) (nested-Agrees, tt)

-- A runner that runs each check once, in order, and raises for the first required one that fails.
abbrev run_checks :
    Dict String (Action Frame (Unit {0})) → List String → Frame → List ServiceHealthStatus × Frame
run_checks [] required f = ([], f)
run_checks ((name, action) ∷ checks) required f =
    let (r, f') = action f in
    let (statuses, last) = run_checks checks required f' in
    (status name (is_ok r) (contains name required) ∷ statuses, last)

abbrev verdict_of : List ServiceHealthStatus → Result HealthCheckResult
verdict_of statuses = elim (find is_failure statuses) [
  | none ↦ ok (record { ok = all is_good statuses; services = statuses })
  | some s ↦ err (health_check_error s (record { ok = false; services = statuses }))
]

abbrev in_order : Runner
in_order checks required parallel overall f =
    let (statuses, last) = run_checks checks required f in (verdict_of statuses, last)

abbrev database_store : Store
database_store = record empty_store { readiness = database_registry }

abbrev ran : Result HealthCheckResult × Frame
ran =
    in_order (checks_of down (some (pos 3)) database_registry.specs) ("database" ∷ []) false none
      (record { store = database_store; structured = [] })

conduct : Conduct ("database" ∷ []) (checks_of down (some (pos 3)) database_registry.specs) ran
unfolding run get
conduct = (
  (
    record {
      named = refl;
      flagged = refl;
      start = record { store = database_store; structured = [] };
      clean = refl;
      verdict = refl;
      kept = refl;
    },
    tt,
  ),
  refl,
)

check-Reported_example : Reported ran.0 (check down in_order none false none database_store).0
unfolding run
check-Reported_example = check-Reported down in_order none false none database_store refl conduct

report-IsReport_example :
    (response : Response) × (failures : List Named) × (report database_registry
        (status "database" false true ∷ [])
      ≡ ok (response, failures))
    × IsReport database_registry (status "database" false true ∷ []) response
unfolding resolve_spec get
report-IsReport_example = report-IsReport database_registry (status "database" false true ∷ []) refl
