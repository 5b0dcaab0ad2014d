-- ===== src/Tests/Errors.antt =====
-- Transport policies, error mappings, rendering and the middleware.
use fastapi_core.Prelude.{
  ℕ, zero, suc, String, string_eq, nat_eq, true, false, ◌≡◌, refl, ◌↔◌, none, some, or_else, List,
  [], ◌∷◌, map, All, length, leb, if◌then◌else◌,
}
use fastapi_core.Dict.{get, has}
use fastapi_core.Result.{ok, err, is_ok, timeout_error, ◌>>=◌}
use fastapi_core.Store.{logged}
use fastapi_core.Transport.{
  TransportPolicy, default_policy, resolve, response_definitions, declared,
  effective_validation_status, validate_module_conflicts,
}
use fastapi_core.Transport.Merge.{IsValid, SamePolicy, resolve_assoc}
use fastapi_core.Transport.Responses.{
  from_validation, from_common, from_fallback, get-response_definitions,
}
use fastapi_core.Transport.Conflicts.{NoConflict, validate_module_conflicts_iff}
use fastapi_core.Http.{ErrorMapping, plain_mapping, ErrorMappingValue, mapping, Classes, from_specs}
use fastapi_core.Http.Table.{is_acceptable, table_of, from_specs_iff}
use fastapi_core.Http.Render.{Python, Request, Response, RendererOptions, renderer, fields_of}
use fastapi_core.Http.Redaction.{Alike, renderer-Alike}
use fastapi_core.Http.Handlers.{
  HttpApp, Callables, route_policy, validation_exception_handler, unhandled_exception_handler,
}
use fastapi_core.Http.Documented.{
  validation_exception_handler-documented, unhandled_exception_handler-uniform,
}
use fastapi_core.Http.Correlation.{
  Message, response_start, response_body, is_correlation_id, send_with_correlation_id, Carries,
  call-Carries,
}
use fastapi_core.Http.Correlation.{call as call_app}
use fastapi_core.Http.AccessLog.{Call, Step, is_hidden, access_log, expected, access_log-expected}

abbrev strict : TransportPolicy
strict = record default_policy { validation_status = some 400; responses = (400, 11) ∷ [] }

abbrev shared : TransportPolicy
shared = record default_policy {
  common_error_response_model = some 21;
  common_error_statuses = 401 ∷ 403 ∷ [];
  responses = (400, 12) ∷ (404, 13) ∷ [];
}

abbrev fallback : TransportPolicy
fallback = record default_policy { fallback_response_model = some 31; validation_status = some 422 }

strict-IsValid : IsValid strict
strict-IsValid = record { status = refl; statuses = refl; keyed = refl }

shared-IsValid : IsValid shared
shared-IsValid = record { status = refl; statuses = refl; keyed = refl }

fallback-IsValid : IsValid fallback
fallback-IsValid = record { status = refl; statuses = refl; keyed = refl }

resolve_assoc_example :
    (left : TransportPolicy) × (right : TransportPolicy) × ((resolve (some strict) (some shared)
        >>= λ ab. resolve (some ab) (some fallback))
      ≡ ok left)
    × ((resolve (some shared) (some fallback) >>= λ bc. resolve (some strict) (some bc)) ≡ ok right)
    × IsValid left
    × SamePolicy left right
resolve_assoc_example =
    resolve_assoc strict shared fallback strict-IsValid shared-IsValid fallback-IsValid

get-response_definitions_example :
    get 400 (response_definitions strict)
    ≡ or_else (some (declared 11)) (
        or_else
          (from_validation strict 400)
          (or_else (from_common strict 400) (from_fallback strict 400)))
unfolding get
get-response_definitions_example = get-response_definitions strict 400

validate_module_conflicts_iff_example :
    (is_ok (validate_module_conflicts (strict ∷ shared ∷ [])) ≡ true)
    ↔ NoConflict (strict ∷ shared ∷ [])
validate_module_conflicts_iff_example = validate_module_conflicts_iff (strict ∷ shared ∷ [])

-- Class 0 is Exception, class 1 a domain error, and class 2 a special case of it.
abbrev mro : ℕ → List ℕ
mro zero = 0 ∷ []
mro (suc zero) = 1 ∷ 0 ∷ []
mro (suc (suc n)) = suc (suc n) ∷ 1 ∷ 0 ∷ []

abbrev classes : Classes
classes = record {
  is_exception_type = λ c. true;
  exception = 0;
  name = λ c. "Error";
  mro = mro;
  call = λ f c. ok none;
}

abbrev missing : ErrorMapping
missing = plain_mapping 404 "not found" none

abbrev specs : List (ℕ × ErrorMappingValue)
specs = (1, mapping missing) ∷ []

from_specs_iff_example :
    (is_ok (from_specs classes specs none) ≡ is_acceptable classes specs none)
    × ((from_specs classes specs none ≡ ok (table_of classes specs none))
        ↔ (is_acceptable classes specs none ≡ true))
from_specs_iff_example = from_specs_iff classes specs none

abbrev python : Python
python = record { phrase = λ status. none; digits = λ status. "404"; uuid = λ request. "a1b2" }

abbrev request : Request
request = record {
  method = "get";
  path = "/items/1";
  route = some "/items/{id}";
  correlation_id = none;
}

-- Only the code is shown.
abbrev code_only : RendererOptions
code_only = record {
  correlation_id_extractor = none;
  envelope_builder = none;
  fallback_codes = [];
  safe_fields = some ("code" ∷ []);
  problem_details = true;
}

abbrev leaky : ErrorMapping
leaky = record missing { detail = "no row in table users" }

alike : Alike ("code" ∷ []) missing leaky
alike = record {
  status_code = refl;
  headers = refl;
  detail = refl;
  title = refl;
  type_uri = refl;
  code = refl;
  extensions = refl;
}

renderer-Alike_example :
    renderer python code_only request missing ≡ renderer python code_only request leaky
unfolding fields_of
renderer-Alike_example = renderer-Alike python code_only request missing leaky refl alike

abbrev callables : Callables
callables = record {
  render = λ r request m. err timeout_error;
  map_error = λ f request c. ok missing;
  mask_sensitive_value = λ s. none;
  upper = λ s. "GET";
}

abbrev app : HttpApp
app = record {
  error_renderer = none;
  error_mapper_types = [];
  error_mapping_table = some (table_of classes ((9, mapping missing) ∷ []) none);
  transport_policies = (("GET", "/items/{id}"), strict) ∷ [];
  exception_handlers = [];
}

validation_exception_handler-documented_example :
    (response : Response) × (validation_exception_handler classes python callables app request
      ≡ ok response)
    × (response.status_code ≡ effective_validation_status strict)
    × (has response.status_code (response_definitions strict) ≡ true)
unfolding route_policy get
validation_exception_handler-documented_example =
    validation_exception_handler-documented classes python callables app request strict refl refl
      refl

unhandled_exception_handler-uniform_example :
    let handle = unhandled_exception_handler classes python callables app request in
    (handle 0 [] ≡ handle 5 []) × ((handle 0 []).1 ≡ logged "unhandled_request_error" ∷ [])
unfolding get
unhandled_exception_handler-uniform_example =
    unhandled_exception_handler-uniform classes python callables app request
      (table_of classes ((9, mapping missing) ∷ []) none) 0 5 [] refl refl refl refl

-- An application that answers at once.
abbrev hello : String → List Message
hello id = response_start 200 [] ∷ response_body false ∷ []

call-Carries_example :
    (id : String) × (is_correlation_id id ≡ true)
    × (call_app "x-correlation-id" (some "bad id") "a1b2" hello
        ≡ map (send_with_correlation_id "x-correlation-id" id) (hello id))
    × All (Carries "x-correlation-id" id) (call_app "x-correlation-id" (some "bad id") "a1b2" hello)
unfolding is_correlation_id
call-Carries_example = call-Carries "x-correlation-id" (some "bad id") "a1b2" hello refl

abbrev items_call : Call
items_call = record { route_path = some "/items/{id}"; path = "/items/1"; log_health = false }

abbrev steps : List Step
steps = (response_start 404 [], true) ∷ (response_body false, true) ∷ []

access_log-expected_example :
    (access_log items_call steps true
      ≡ (if is_hidden items_call then [] else expected items_call 500 steps true))
    × (leb (length (access_log items_call steps true)) 1 ≡ true)
access_log-expected_example = access_log-expected items_call steps true
