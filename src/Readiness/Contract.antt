-- ===== src/Readiness/Contract.antt =====
-- What `check` reports, given what docmesh_py_core documents of `async_check_all_services`.
use fastapi_core.Prelude.{
  String, string_eq, Bool, true, false, ◌≡◌, refl, sym, ◌∙◌, List, [], ◌∷◌, Option, none, some, inl,
  inr, All, all, any, contains, distinct, find-any, arith, if◌then◌else◌,
}
use fastapi_core.Prelude.Int.{ℤ}
use mathlib.Core.List.{Memᴰ}
use fastapi_core.Dict.{Dict, keys, get}
use fastapi_core.Dict.Laws.{get-put_self, get-entries, contains-filter, distinct-filter}
use fastapi_core.Docmesh.{ServiceHealthStatus, HealthCheckResult}
use fastapi_core.Result.{Result, ok, err, is_ok, health_check_error, runtime_error, Result-cases}
use fastapi_core.Action.{Action, pure, raise, ◌>>=◌}
use fastapi_core.Store.{
  View, flag, health_result, health_status, outcome, Value, ReadinessCheckSpec, Store, World,
}
use fastapi_core.Readiness.{structured_result, or_seconds, merge_structured_results}
use fastapi_core.Readiness.Run.{
  Frame, on_store, interpret, invoke_check, adapt, run, Runner, is_failure, reraise, conclude,
  select, required_names, checks_of, check, is_selected,
}
use fastapi_core.Readiness.Merge.{
  is_good, IsNested, Agrees, structured_result-IsNested, merge_structured_results_verdict,
}

-- The check was run once, from some frame in which nothing stood under its name; its status has its
-- name, its flag and whether it returned; and what it left under its name is there at the end.
pub record Served (required : List String) (last : Frame) (name : String)
    (action : Action Frame (Unit {0})) (s : ServiceHealthStatus) : Type 0 where
  pub named : s.service ≡ name
  pub flagged : s.required ≡ contains name required
  pub start : Frame
  pub clean : get name start.structured ≡ none
  pub verdict : s.ok ≡ is_ok (action start).0
  pub kept : get name last.structured ≡ get name (action start).1.structured

-- One status for each check, in the order of the mapping.
abbrev pub AllServed :
    List String → Frame → Dict String (Action Frame (Unit {0})) → List ServiceHealthStatus → Type 0
AllServed required last [] [] = Unit
AllServed required last ((name, action) ∷ checks) (s ∷ ss) =
    Served required last name action s × AllServed required last checks ss
AllServed required last _ _ = ⊥

-- What is documented of a run: a result with no failed required service is returned, one with such
-- a service is raised; any other exception, such as the overall timeout, has no result.
abbrev pub Conduct :
    List String → Dict String (Action Frame (Unit {0})) → Result HealthCheckResult × Frame → Type 0
Conduct required checks (ok result, last) =
    AllServed required last checks result.services × (any is_failure result.services ≡ false)
Conduct required checks (err (health_check_error s result), last) =
    AllServed required last checks result.services × (any is_failure result.services ≡ true)
Conduct required checks (err e, last) = Unit

-- What one run of a check leaves under its own name.
abbrev Leaves : String → Bool → Result (Unit {0}) × Frame → Type 0
Leaves name required (r, f) =
    (n : HealthCheckResult)
    → get name f.structured ≡ some n
    → (n.ok ≡ is_ok r) × IsNested required n

nested-Leaves :
    (name : String) (required : Bool) (nested : HealthCheckResult) (message : String) (f : Frame)
    → IsNested required nested
    → get name f.structured ≡ some nested
    → Leaves name required (if nested.ok then pure tt f else raise (runtime_error message) f)
nested-Leaves name required nested message f fit here n h =
    let e : n ≡ nested = ground arith in rw e (ground arith, fit)

interpret-Leaves :
    (name : String) (required : Bool) (v : View) (f : Frame)
    → get name f.structured ≡ none
    → Leaves name required (interpret name required v f)
unfolding interpret
interpret-Leaves name required (flag true) f clean n h = cc
interpret-Leaves name required (flag false) f clean n h = cc
interpret-Leaves name required (health_result result) f clean n h =
    nested-Leaves name required (structured_result name result required) _ _
      (structured_result-IsNested name required result) (get-put_self name _ f.structured) n
      (ground arith)
interpret-Leaves name required (health_status status) f clean n h = absurd (ground arith)
interpret-Leaves name required (outcome good error) f clean n h = absurd (ground arith)
interpret-Leaves name required _ f clean n h = cc

bind-Leaves :
    (name : String) (required : Bool) (m : Action Store Value) (k : Value → Action Frame (Unit {0}))
    (f : Frame)
    → ((v : Value) (f' : Frame) → get name f'.structured ≡ none → Leaves name required (k v f'))
    → get name f.structured ≡ none
    → Leaves name required ((on_store m >>= k) f)
bind-Leaves name required m k f rest clean = elim (Result-cases (m f.store).0) [
  | inl (v, e) ↦ rw e (rest v _ clean)
  | inr (x, e) ↦ rw e (λ n h. cc)
]

run-Leaves :
    (world : World) (default : Option ℤ) (name : String) (spec : ReadinessCheckSpec) (f : Frame)
    → get name f.structured ≡ none
    → Leaves name spec.required (run world default name spec f)
unfolding run
run-Leaves world default name spec f =
    bind-Leaves name spec.required
      (invoke_check world spec.check (or_seconds spec.timeout_seconds default))
      (λ v. on_store (adapt world spec.health_result_adapter v) >>= λ v'.
        interpret name spec.required v'.view)
      f
      λ v f'.
        bind-Leaves name spec.required (adapt world spec.health_result_adapter v)
          (λ v'. interpret name spec.required v'.view) f'
          λ v' f''. interpret-Leaves name spec.required v'.view f''

module _ (world : World) (default : Option ℤ) (selected : Dict String ReadinessCheckSpec)
    (unique : distinct (keys selected) ≡ true) (last : Frame) where
  Served-Agrees :
      (name : String) (spec : ReadinessCheckSpec) (s : ServiceHealthStatus)
      → get name selected ≡ some spec
      → Served (required_names selected) last name (run world default name spec) s
      → Agrees last.structured s
  Served-Agrees name spec s found served n h =
      let required = contains-filter (λ q. q.required) name spec selected unique found in
      let left : get name (run world default name spec served.start).1.structured ≡ some n =
        ground (arith, served.kept, served.named) in
      let (verdict, fit) = run-Leaves world default name spec served.start served.clean n left in
      let same : s.required ≡ spec.required = served.flagged ∙ required in
      (verdict ∙ sym served.verdict, rw same fit)

  AllServed-Agrees :
      (d : Dict String ReadinessCheckSpec) (ss : List ServiceHealthStatus)
      → All (λ p. get p.0 selected ≡ some p.1) d
      → AllServed (required_names selected) last (checks_of world default d) ss
      → All (Agrees last.structured) ss
  AllServed-Agrees [] [] entries served = tt
  AllServed-Agrees [] (s ∷ ss) entries served = absurd served
  AllServed-Agrees (p ∷ d) [] entries served = absurd served
  AllServed-Agrees ((name, spec) ∷ d) (s ∷ ss) entries served =
      (Served-Agrees name spec s entries.0 served.0, AllServed-Agrees d ss entries.1 served.1)

-- How the report of `check` follows from what the run gave.
abbrev pub Reported : Result HealthCheckResult → Result HealthCheckResult → Type 0
Reported (ok raw) report =
    (result : HealthCheckResult) × (report ≡ ok result)
    × (result.ok ≡ all is_good raw.services)
    × (any is_failure result.services ≡ false)
Reported (err (health_check_error s raw)) report =
    (failure : ServiceHealthStatus) × (result : HealthCheckResult) × (report
      ≡ err (health_check_error failure result))
    × (is_failure failure ≡ true)
    × (Memᴰ failure result.services)
    × (result.ok ≡ false)
Reported (err e) report = report ≡ err e

all_good_of_failure :
    (ss : List ServiceHealthStatus) → any is_failure ss ≡ true → all is_good ss ≡ false
all_good_of_failure [] h = cc
all_good_of_failure (s ∷ ss) h = ground (arith, all_good_of_failure ss)

module _ (world : World) (default : Option ℤ) (selected : Dict String ReadinessCheckSpec)
    (unique : distinct (keys selected) ≡ true) where
  conclude-Reported :
      (r : Result HealthCheckResult) (last : Frame)
      → Conduct (required_names selected) (checks_of world default selected) (r, last)
      → Reported r (conclude r last.structured)
  unfolding conclude
  conclude-Reported (ok raw) last (served, none_failed) =
      let agree =
        AllServed-Agrees world default selected unique last selected raw.services
          (get-entries selected unique) served in
      let (verdict, failures) = merge_structured_results_verdict raw last.structured agree in
      (merge_structured_results raw last.structured, refl, verdict, failures ∙ none_failed)
  conclude-Reported (err (health_check_error s raw)) last (served, some_failed) =
      let agree =
        AllServed-Agrees world default selected unique last selected raw.services
          (get-entries selected unique) served in
      let merged = merge_structured_results raw last.structured in
      let (verdict, failures) = merge_structured_results_verdict raw last.structured agree in
      let (failure, found, failed, listed) =
        find-any is_failure merged.services (failures ∙ some_failed) in
      (
        failure,
        merged,
        rw (found, reraise),
        failed,
        listed,
        verdict ∙ all_good_of_failure raw.services some_failed,
      )
  conclude-Reported (err e) last h = refl

-- For a registry of different names, and a run that conducts itself as documented, whatever the
-- outside does: a run that returns is reported good exactly if every check succeeded,
-- and has no failed required service; a run that raises for a required service is reported by
-- HealthCheckError with a failed required service of its own result, never by an exception of the
-- search for it; any other exception is passed on.
pub check-Reported :
    (world : World) (runner : Runner) (names : Option (List String)) (parallel : Bool)
    (overall : Option ℤ) (s : Store)
    → distinct (keys s.readiness.specs) ≡ true
    → let selected = select names s.readiness.specs in
      let checks = checks_of world s.readiness.default_timeout_seconds selected in
      let ran =
        runner checks
          (required_names selected)
          parallel
          overall
          (record { store = s; structured = [] }) in
      Conduct (required_names selected) checks ran
      → Reported ran.0 (check world runner names parallel overall s).0
unfolding check
check-Reported world runner names parallel overall s unique conduct =
    let selected = select names s.readiness.specs in
    conclude-Reported world s.readiness.default_timeout_seconds selected
      (distinct-filter (λ p. is_selected names p.0) s.readiness.specs unique) _ _ conduct
