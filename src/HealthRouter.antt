-- ===== src/HealthRouter.antt =====
-- fastapi_core/routers/health.py and schemas/health.py: the liveness and readiness endpoints.
pub mod Report
use fastapi_core.Prelude.{
  ℕ, String, Bool, true, false, not, Option, none, some, is_some, List, [], ◌∷◌, ◌++◌, any,
  is_empty, if◌then◌else◌, string_eq,
}
use fastapi_core.Text.{truthy_text}
use fastapi_core.Dict.{Dict, put}
use fastapi_core.Docmesh.{ServiceHealthStatus, HealthCheckResult}
use fastapi_core.Result.{Exn, Result, ok, err, health_check_error, timeout_error, ◌>>=◌}
use fastapi_core.Action.{Action}
use fastapi_core.Store.{Event, logged, ReadinessCheckSpec, ReadinessRegistry, Store, World}
use fastapi_core.Config.{AppConfig}
use fastapi_core.Readiness.{or_seconds, resolve_spec}
use fastapi_core.Readiness.Run.{Runner, check}

pub data HealthStatus : Type 0 where
  ok_status degraded error_status : HealthStatus

pub record HealthServiceDetail : Type 0 where
  pub ok : Bool
  pub latency_ms : Option ℕ
  pub error : Option String
  pub required : Bool
  pub enabled : Bool

pub record HealthResponse : Type 0 where
  pub status : HealthStatus
  pub details : Option (Dict String HealthServiceDetail)

-- A response with its status code.
pub record Response : Type 0 where
  pub status_code : ℕ
  pub body : HealthResponse

abbrev timed_out : Option String → Bool → Option String
timed_out (some t) b = some t
timed_out none b = if b then some "health check timed out" else none

unfoldable pub readiness_error :
    ReadinessRegistry → String → Bool → Option String → Result (Option String)
readiness_error registry name true error = ok error
readiness_error registry name false error = do
  spec ← resolve_spec name registry
  ok (
      if spec.redact_errors
      then some "readiness check failed"
      else (timed_out (truthy_text error)
          (is_some (or_seconds spec.timeout_seconds registry.default_timeout_seconds))))

unfoldable pub detail_of : ReadinessRegistry → ServiceHealthStatus → Result HealthServiceDetail
unfolding readiness_error
detail_of registry service = do
  spec ← resolve_spec service.service registry
  error ← readiness_error registry service.service service.ok service.error
  ok (record {
    ok = service.ok;
    latency_ms = service.latency_ms;
    error = error;
    required = spec.required;
    enabled = true;
  })

abbrev pub Named : Type 0
Named = String × HealthServiceDetail

-- The loop over the services, with its two variables.
unfoldable pub collect :
    ReadinessRegistry
    → List ServiceHealthStatus
    → Dict String HealthServiceDetail
    → List Named
    → Result (Dict String HealthServiceDetail × List Named)
unfolding detail_of
collect registry [] details failures = ok (details, failures)
collect registry (s ∷ ss) details failures = do
  detail ← detail_of registry s
  collect registry ss (put s.service detail details)
      (if detail.ok then failures else failures ++ (s.service, detail) ∷ [])

unfoldable pub status_text : List Named → HealthStatus
status_text failures =
    if any (λ p. p.1.required) failures
    then error_status
    else if is_empty failures
    then ok_status
    else degraded

abbrev code_of : HealthStatus → ℕ
code_of error_status = 503
code_of _ = 200

abbrev respond : HealthStatus → Option (Dict String HealthServiceDetail) → Response
respond status details = record {
  status_code = code_of status;
  body = record { status = status; details = details };
}

unfoldable pub liveness : Response
liveness = respond ok_status none

-- From the services of a result to the response and the failures that are logged.
unfoldable pub report :
    ReadinessRegistry → List ServiceHealthStatus → Result (Response × List Named)
unfolding collect status_text
report registry services = do
  collected ← collect registry services [] []
  ok (respond (status_text collected.1) (some collected.0), collected.1)

abbrev log_failures : List Named → List Event → List Event
log_failures [] history = history
log_failures (f ∷ fs) history = log_failures fs (logged "readiness_check_failed" ∷ history)

abbrev log_report : Result (Response × List Named) → Action Store Response
log_report (err e) s = (err e, s)
log_report (ok (response, failures)) s =
    (ok response, record s { history = log_failures failures s.history })

abbrev answer : Result HealthCheckResult → Action Store Response
answer (ok result) s = log_report (report s.readiness result.services) s
answer (err (health_check_error status result)) s =
    log_report (report s.readiness result.services) s
answer (err timeout_error) s = (
  ok (respond error_status none),
  record s { history = logged "readiness_check_timeout" ∷ s.history },
)
answer (err e) s = (err e, s)

unfoldable pub readiness : World → Runner → AppConfig → Action Store Response
unfolding check report
readiness world runner config s =
    if is_empty s.readiness.specs
    then (ok (respond ok_status none), s)
    else (let (r, s') =
          check world runner none config.readiness_parallel config.readiness_overall_timeout_seconds
            s in
        answer r s')
