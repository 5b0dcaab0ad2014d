-- ===== src/Openapi.antt =====
-- The OpenAPI document of an application: `_configure_oauth2_scheme` and `_configure_transport_openapi`
-- of fastapi_core/factory.py. The document is FastAPI's: its paths have operations by their methods in
-- lower case, and what the program does not read is JSON.
pub mod Documented
use fastapi_core.Prelude.{
  ℕ, String, string_eq, Bool, not, Option, none, some, List, [], ◌∷◌, ◌++◌, get_or, if◌then◌else◌,
}
use fastapi_core.Dict.{Dict, get, put, remove, set_default}
use fastapi_core.Text.Decimal.{str}
use fastapi_core.Json.{Json, text, object, end, member, Members, of_entries, object_of}
use fastapi_core.Result.{Result, ok, err, key_error, ◌>>=◌}
use fastapi_core.Transport.{
  TransportPolicy, effective_validation_status, effective_include_synthetic_422,
}

pub record Operation : Type 0 where
  pub operation_id : Option String
  pub responses : Option (Dict String Json)
  pub rest : Dict String Json

-- A scheme with the flow for passwords, by its `tokenUrl`; or another, with the first of the keys
-- `flows` and `password` that it lacks.
pub data SecurityScheme : Type 0 where
  password_flow : String → Members → SecurityScheme
  other_scheme : String → Json → SecurityScheme

pub record Document : Type 0 where
  pub paths : Dict String (Dict String Operation)
  pub security_schemes : Dict String SecurityScheme
  pub schemas : Dict String Json
  pub rest : Dict String Json

abbrev set_token_url : String → SecurityScheme → Result SecurityScheme
set_token_url url (password_flow _ rest) = ok (password_flow url rest)
set_token_url url (other_scheme missing json) = err (key_error missing)

-- `app_openapi` of `_configure_oauth2_scheme`
unfoldable pub oauth2_openapi : String → Document → Result Document
oauth2_openapi token_url d = elim (get "OAuth2PasswordBearer" d.security_schemes) [
  | none ↦ ok d
  | some scheme ↦ set_token_url token_url scheme >>= λ scheme'.
      ok (record d { security_schemes = put "OAuth2PasswordBearer" scheme' d.security_schemes })
]

-- What is done to the responses of an operation for its policy.
unfoldable pub document_responses : TransportPolicy → Dict String Json → Dict String Json
document_responses policy responses =
    let responses' =
      set_default (str (effective_validation_status policy))
        (object (member "description" (text "Request validation error") end)) responses in
    if not (effective_include_synthetic_422 policy) then remove "422" responses' else responses'

abbrev pub document_operation : TransportPolicy → Operation → Operation
document_operation policy o = record o {
  responses = some (document_responses policy (get_or o.responses []));
}

-- One round of the loop: for the policy of a method and a path.
unfoldable pub document_policy :
    (String → String) → String → String → TransportPolicy → Document → Document
document_policy lower method path policy d = elim (get path d.paths) [
  | none ↦ d
  | some operations ↦ elim (get (lower method) operations) [
    | none ↦ d
    | some o ↦ record d {
      paths = put path (put (lower method) (document_operation policy o) operations) d.paths;
    }
  ]
]

-- `app_openapi` of `_configure_transport_openapi`; `lower` is `str.lower`.
unfoldable pub transport_openapi :
    (String → String) → Dict (String × String) TransportPolicy → Document → Document
transport_openapi lower [] d = d
transport_openapi lower (((method, path), policy) ∷ policies) d =
    transport_openapi lower policies (document_policy lower method path policy d)

-- `app.openapi()` as `create_app` leaves it: the second wraps the first.
unfoldable pub openapi :
    (String → String) → String → Dict (String × String) TransportPolicy → Document → Result Document
unfolding oauth2_openapi
openapi lower token_url policies d =
    oauth2_openapi token_url d >>= λ d'. ok (transport_openapi lower policies d')

-- The document as JSON.
abbrev optional_member {ℓ} : {A : Type ℓ} → String → (A → Json) → Option A → Dict String Json
optional_member k f none = []
optional_member k f (some a) = (k, f a) ∷ []

abbrev pub operation_json : Operation → Json
operation_json o = object (
    of_entries (
      optional_member "operationId" text o.operation_id
      ++ optional_member "responses" (λ r. object (of_entries r)) o.responses
      ++ o.rest))

abbrev pub path_json : Dict String Operation → Json
path_json operations = object (object_of operation_json operations)

abbrev scheme_json : SecurityScheme → Json
scheme_json (password_flow url rest) = object (
    member "flows" (object (member "password" (object (member "tokenUrl" (text url) end)) end))
      rest)
scheme_json (other_scheme missing json) = json

abbrev pub document_json : Document → Json
document_json d = object (
    member "paths" (object (object_of path_json d.paths)) (
      member "components"
        (object (
          member "securitySchemes" (object (object_of scheme_json d.security_schemes))
            (member "schemas" (object (of_entries d.schemas)) end)))
        (of_entries d.rest)))
