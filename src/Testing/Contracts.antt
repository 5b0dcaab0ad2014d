-- ===== src/Testing/Contracts.antt =====
-- The assertions of fastapi_core/testing.py on a client's answers and on the OpenAPI document of an
-- application.
pub mod References
pub mod Parts
pub mod Conforming
use fastapi_core.Prelude.{
  ℕ, String, string_eq, Bool, true, false, not, ◌&&◌, Option, none, some, List, [], ◌∷◌, ◌++◌, map,
  contains, dedupe, length, nat_beq, get_or, if◌then◌else◌, ◌==◌, bool_beq, Eq, subset, bool_eq,
}
use fastapi_core.Prelude.Int.{ℤ, int_eq}
use fastapi_core.Text.{◌<>◌, starts_with, after_last}
use fastapi_core.Text.Decimal.{str}
use fastapi_core.Dict.{Dict, get, has, keys, values}
use fastapi_core.Json.{
  Json, null, flag, number, text, array, object, Items, nil, cons, Members, end, member, entries,
}
use fastapi_core.Result.{
  Exn, Result, ok, err, key_error, type_error, value_error, check_that, for_each, ◌>>=◌, ◌>>◌,
}
use fastapi_core.Openapi.{Operation, Document, document_json}

-- The methods of `str` and `int` of a text, which is `none` where it raises ValueError.
pub record Texts : Type 0 where
  pub lower : String → String
  pub upper : String → String
  pub to_int : String → Option ℤ

-- A test client's response, with `response.json()`.
pub record ClientResponse : Type 0 where
  pub status_code : ℕ
  pub json : Result Json

pub record Client : Type 0 where
  pub get : String → Result ClientResponse
  pub post : String → Result ClientResponse

abbrev found : String → Option Json → Result Json
found key none = err (key_error key)
found key (some value) = ok value

-- `value[key]`, for a text `key`
abbrev index : String → Json → Result Json
index key (object ms) = found key (get key (entries ms))
index key _ = err (type_error "not a mapping")

abbrev is_text : String → Json → Bool
is_text s (text t) = t == s
is_text s _ = false

unfoldable pub check_healthy : ClientResponse → Result (Unit {0})
check_healthy response = do
  check_that (nat_beq response.status_code 200) ""
  json ← response.json
  status ← index "status" json
  check_that (is_text "ok" status) ""

unfoldable pub assert_health_contract : Client → Result (Unit {0})
unfolding check_healthy
assert_health_contract client = do
  liveness ← client.get "/health/liveness"
  readiness ← client.get "/health/readiness"
  for_each (liveness ∷ readiness ∷ []) check_healthy

abbrev pub is_installed : ClientResponse → Bool
is_installed response = not (nat_beq response.status_code 404)

unfoldable pub assert_auth_router_contract : Client → Bool → Result (Unit {0})
assert_auth_router_contract client included = do
  user ← client.get "/user"
  token ← client.post "/token"
  for_each (user ∷ token ∷ []) (λ r. check_that (bool_beq (is_installed r) included) "")

-- What is expected of a document.
pub record OpenapiExpectation : Type 0 where
  pub expected_paths : Dict String (List String)
  pub expected_security_schemes : List String
  pub expected_responses : Dict (String × String) (List ℤ)
  pub validation_status : Option ℕ
  pub include_synthetic_422 : Option Bool

abbrev or_key_error {ℓ} : {A : Type ℓ} → String → Option A → Result A
or_key_error key none = err (key_error key)
or_key_error key (some a) = ok a

-- `paths[path][method]`
abbrev pub index_operation : Document → String → String → Result Operation
index_operation d path method = do
  operations ← or_key_error path (get path d.paths)
  or_key_error method (get method operations)

abbrev pub responses_of : Operation → Dict String Json
responses_of o = get_or o.responses []

abbrev pub invalid_literal : Exn
invalid_literal = value_error "invalid literal for int() with base 10"

abbrev as_int : Option ℤ → Result ℤ
as_int none = err invalid_literal
as_int (some n) = ok n

abbrev pub http_methods : List String
http_methods = "get" ∷ "put" ∷ "post" ∷ "delete" ∷ "options" ∷ "head" ∷ "patch" ∷ "trace" ∷ []

abbrev added : Option String → List String → List String
added none ids = ids
added (some id) ids = id ∷ ids

abbrev pub is_false : Option Bool → Bool
is_false none = false
is_false (some b) = not b

abbrev check_validation_response : ℕ → Option Bool → Operation → Result (Unit {0})
check_validation_response status include_synthetic_422 operation =
    check_that (has (str status) (responses_of operation)) ""
    >> (if is_false include_synthetic_422
        then check_that (not (has "422" (responses_of operation))) ""
        else ok tt)

-- The reference of an object to a schema of the document, by the name that the code reads.
abbrev name_in : Option Json → Option String
name_in (some (text t)) =
    if starts_with "#/components/schemas/" t then some (after_last b'/' t) else none
name_in _ = none

unfoldable pub reference_of : Members → Option String
reference_of ms = name_in (get "$ref" (entries ms))

abbrev check_reference : Dict String Json → Option String → Result (Unit {0})
check_reference schemas none = ok tt
check_reference schemas (some name) =
    check_that (has name schemas) ("OpenAPI component schema '" <> name <> "' is missing")

unfoldable mutual
  pub validate_references : Dict String Json → Json → Result (Unit {0})
  validate_references schemas null = ok tt
  validate_references schemas (flag b) = ok tt
  validate_references schemas (number n) = ok tt
  validate_references schemas (text t) = ok tt
  validate_references schemas (array vs) = validate_items schemas vs
  validate_references schemas (object ms) =
      check_reference schemas (reference_of ms) >> validate_members schemas ms

  pub validate_items : Dict String Json → Items → Result (Unit {0})
  validate_items schemas nil = ok tt
  validate_items schemas (cons v vs) = validate_references schemas v >> validate_items schemas vs

  pub validate_members : Dict String Json → Members → Result (Unit {0})
  validate_members schemas end = ok tt
  validate_members schemas (member k v ms) =
      validate_references schemas v >> validate_members schemas ms

module _ (texts : Texts) where
  unfoldable pub check_path : Document → String × List String → Result (Unit {0})
  check_path d (path, methods) = elim (get path d.paths) [
    | none ↦ check_that false ("OpenAPI path '" <> path <> "' is missing")
    | some operations ↦ for_each methods (λ method.
        check_that (has (texts.lower method) operations)
          ("OpenAPI operation '" <> texts.upper method <> " " <> path <> "' is missing"))
  ]

  unfoldable pub response_codes : List String → Result (List ℤ)
  response_codes [] = ok []
  response_codes (code ∷ codes) = do
    n ← as_int (texts.to_int code)
    ns ← response_codes codes
    ok (n ∷ ns)

  unfoldable pub check_statuses : Document → (String × String) × List ℤ → Result (Unit {0})
  check_statuses d ((path, method), statuses) = do
    operation ← index_operation d path (texts.lower method)
    codes ← response_codes (keys (responses_of operation))
    check_that (subset statuses codes) (
        "OpenAPI operation '"
        <> texts.upper method
        <> " "
        <> path
        <> "' is missing expected responses")

  unfoldable pub check_validation :
      Document → ℕ → Option Bool → String × List String → Result (Unit {0})
  check_validation d status include_synthetic_422 (path, methods) = for_each methods (λ method.
      index_operation d path (texts.lower method)
      >>= check_validation_response status include_synthetic_422)

  abbrev pub check_validation_status : Document → OpenapiExpectation → Option ℕ → Result (Unit {0})
  check_validation_status d e none = ok tt
  check_validation_status d e (some status) =
      for_each e.expected_paths (check_validation d status e.include_synthetic_422)

  -- The ids of the operations of a path, and of all paths.
  unfoldable pub ids_of : Dict String Operation → List String
  ids_of [] = []
  ids_of ((method, operation) ∷ operations) =
      let rest = ids_of operations in
      if contains (texts.lower method) http_methods then added operation.operation_id rest else rest

  unfoldable pub operation_ids : List (Dict String Operation) → List String
  operation_ids [] = []
  operation_ids (operations ∷ paths) = ids_of operations ++ operation_ids paths

  unfoldable pub assert_openapi_contract : Document → OpenapiExpectation → Result (Unit {0})
  assert_openapi_contract d e = do
    for_each e.expected_paths (check_path d)
    for_each e.expected_responses (check_statuses d)
    check_validation_status d e e.validation_status
    let ids = operation_ids (values d.paths)
    check_that (nat_beq (length ids) (length (dedupe ids))) "OpenAPI operation IDs must be unique"
    for_each e.expected_security_schemes (λ name.
        check_that (has name d.security_schemes)
          ("OpenAPI security scheme '" <> name <> "' is missing"))
    validate_references d.schemas (document_json d)
