-- ===== src/Readiness.antt =====
-- fastapi_core/readiness.py: the registry of readiness checks and how their results are read.
pub mod Run
pub mod Registry
pub mod Merge
pub mod Contract
use fastapi_core.Prelude.{
  String, Bool, true, false, not, ◌&&◌, ◌||◌, Option, none, some, List, [], ◌∷◌, ◌++◌, map, all,
  find, filter, contains, is_empty, if◌then◌else◌, get_or, string_eq,
}
use fastapi_core.Prelude.Int.{ℤ, is_positive, is_truthy}
use fastapi_core.Text.{is_blank, before, ◌<>◌}
use fastapi_core.Dict.{Dict, get, has, put, remove}
use fastapi_core.Docmesh.{ServiceHealthStatus, HealthCheckResult}
use fastapi_core.Result.{
  Exn, Result, ok, err, value_error, key_error, runtime_error, health_check_error, raise_if, ◌>>◌,
  ◌>>=◌,
}
use fastapi_core.Store.{
  Callable, Value, View, nothing, flag, health_result, health_status, outcome, awaitable, other,
  Check, plain, partial, ReadinessCheckSpec, ReadinessRegistry, Store, World,
}

-- A timeout that is there and not greater than zero.
abbrev pub is_bad_timeout : Option ℤ → Bool
is_bad_timeout none = false
is_bad_timeout (some t) = not (is_positive t)

-- `spec.timeout_seconds or self.default_timeout_seconds`
abbrev pub or_seconds : Option ℤ → Option ℤ → Option ℤ
or_seconds none d = d
or_seconds (some t) d = if is_truthy t then some t else d

unfoldable pub register : ReadinessCheckSpec → ReadinessRegistry → Result ReadinessRegistry
register spec registry =
    raise_if (is_blank spec.name) (value_error "readiness check name must not be empty")
    >> raise_if (has spec.name registry.specs)
        (value_error ("readiness check '" <> spec.name <> "' is already registered"))
    >> raise_if (is_bad_timeout spec.timeout_seconds)
        (value_error "readiness check timeout_seconds must be greater than zero")
    >> ok (record registry { specs = put spec.name spec registry.specs })

-- The arguments of `register_readiness_check`, on the registry of an application.
unfoldable pub register_readiness_check : ReadinessCheckSpec → Store → Result Store
register_readiness_check spec store =
    register spec store.readiness >>= λ registry. ok (record store { readiness = registry })

unfoldable pub unregister : String → ReadinessRegistry → ReadinessRegistry
unregister name registry = record registry { specs = remove name registry.specs }

abbrev index {ℓ} : {A : Type ℓ} → String → Option A → Result A
index k none = err (key_error k)
index k (some a) = ok a

-- A name that is not registered is looked up by its part before the first dot.
unfoldable pub resolve_spec : String → ReadinessRegistry → Result ReadinessCheckSpec
resolve_spec name registry = elim (get name registry.specs) [
  | some spec ↦ ok spec
  | none ↦ let parent = before b'.' name in index parent (get parent registry.specs)
]

unfoldable pub structured_service : String → Bool → ServiceHealthStatus → ServiceHealthStatus
structured_service parent required service = record service {
  service = parent <> "." <> service.service;
  required = required;
}

unfoldable pub structured_result : String → HealthCheckResult → Bool → HealthCheckResult
unfolding structured_service
structured_result parent result required =
    let services = map (structured_service parent required) result.services in
    record { ok = result.ok && all (λ s. s.ok) services; services = services }

-- What stands in the merged list for one service.
unfoldable pub expand :
    Dict String HealthCheckResult → ServiceHealthStatus → List ServiceHealthStatus
expand structured service = elim (get service.service structured) [
  | none ↦ service ∷ []
  | some nested ↦
      if is_empty nested.services || (not nested.ok && all (λ s. s.ok) nested.services)
      then service ∷ []
      else nested.services
]

unfoldable pub merge_services :
    Dict String HealthCheckResult → List ServiceHealthStatus → List ServiceHealthStatus
unfolding expand
merge_services structured [] = []
merge_services structured (s ∷ ss) = expand structured s ++ merge_services structured ss

unfoldable pub merge_structured_results :
    HealthCheckResult → Dict String HealthCheckResult → HealthCheckResult
unfolding merge_services
merge_structured_results result structured =
    let services = merge_services structured result.services in
    record { ok = all (λ s. s.ok) services; services = services }
