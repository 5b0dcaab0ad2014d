-- ===== src/Services/Branches.antt =====
-- When a service client is given to a request, and how it fails.
use fastapi_core.Prelude.{String, ◌≡◌, refl, Option, none, some, [], if◌then◌else◌}
use fastapi_core.Result.{Result, ok, err, http_exception}
use fastapi_core.Runtime.{Object, is_instance, Client, wrapper, bare, ServiceRuntime, App}
use fastapi_core.Services.{
  service_not_enabled, service_type_mismatch, get_service_runtime, resolve_service_client,
  resolve_wrapped_service_client, unwrap_service_client,
}

-- What a request for a client finds.
pub data Found : Type 0 where
  no_runtime not_enabled not_wrapped : Found
  object : Object → Found

abbrev seen : Option Client → Found
seen none = not_enabled
seen (some (bare o)) = not_wrapped
seen (some (wrapper o)) = object o

abbrev pub find_client : String → Option ServiceRuntime → Found
find_client name none = no_runtime
find_client name (some runtime) = seen (runtime.client name)

-- The answer to it: 503 for what is not there, 500 for what is of another type.
abbrev pub answer_for : String → String → Found → Result Object
answer_for name expected no_runtime = err (http_exception 503 "Service runtime is not available" [])
answer_for name expected not_enabled = err (service_not_enabled name)
answer_for name expected not_wrapped = err (service_type_mismatch name "wrapped service client")
answer_for name expected (object o) =
    if is_instance o expected then ok o else err (service_type_mismatch name expected)

-- The client of a service is given exactly if there is a runtime that has a wrapper for it whose
-- object is of the expected type; else the request fails with 503 where something is not there, and
-- with 500 where it is of another type.
pub unwrap_service_client_lem :
    (name expected : String) (app : App)
    → unwrap_service_client name expected app
      ≡ answer_for name expected (find_client name app.service_runtime)
unfolding unwrap_service_client resolve_wrapped_service_client resolve_service_client
    get_service_runtime
unwrap_service_client_lem name expected app = by_runtime app.service_runtime refl
  where
    by_client :
        (runtime : ServiceRuntime) (c : Option Client)
        → app.service_runtime ≡ some runtime
        → runtime.client name ≡ c
        → unwrap_service_client name expected app ≡ answer_for name expected (seen c)
    by_client runtime none h k = rw (h, k) refl
    by_client runtime (some (bare o)) h k = rw (h, k) refl
    by_client runtime (some (wrapper o)) h k = rw (h, k) refl

    by_runtime :
        (r : Option ServiceRuntime)
        → app.service_runtime ≡ r
        → unwrap_service_client name expected app ≡ answer_for name expected (find_client name r)
    by_runtime none h = rw h refl
    by_runtime (some runtime) h = by_client runtime (runtime.client name) h refl
