-- ===== src/Auth.antt =====
-- fastapi_core/dependencies/auth.py and routers/auth.py, with schemas/user.py and schemas/token.py.
pub mod Permissions
use fastapi_core.Prelude.{
  ℕ, String, string_eq, Bool, true, false, not, ◌&&◌, Option, none, some, or_else, get_or, List, [],
  ◌∷◌, ◌++◌, subset, dedupe, is_empty, if◌then◌else◌,
}
use fastapi_core.Text.{join, words, truthy_text}
use fastapi_core.Dict.{Dict, values}
use fastapi_core.Result.{Exn, Result, ok, err, http_exception, raise_if, is_exception, ◌>>=◌, ◌>>◌}
use fastapi_core.Store.{Event, logged}
use fastapi_core.Runtime.{Object, AuthProvider, App}
use fastapi_core.Services.{get_keycloak_auth_service}

-- docmesh_py_core's `AuthenticatedUser`; `scope` is the claim of that name, if it is a text.
pub record AuthenticatedUser : Type 0 where
  pub sub : String
  pub preferred_username : Option String
  pub email : Option String
  pub name : Option String
  pub realm_roles : List String
  pub client_roles : Dict String (List String)
  pub scope : Option String

abbrev pub concat : List (List String) → List String
concat [] = []
concat (xs ∷ xss) = xs ++ concat xss

unfoldable pub get_roles : AuthenticatedUser → List String
get_roles user = dedupe (user.realm_roles ++ concat (values user.client_roles))

unfoldable pub get_scopes : AuthenticatedUser → List String
get_scopes user = elim user.scope [ none ↦ [] | some raw_scope ↦ words raw_scope ]

abbrev bearer : List (String × String)
bearer = ("WWW-Authenticate", "Bearer") ∷ []

-- The cached provider, else the service of the runtime, which is kept. `provider_of` reads the
-- provider as an authentication provider.
unfoldable pub get_auth_provider : (Object → AuthProvider) → App → Result AuthProvider × App
get_auth_provider provider_of app = elim app.auth_provider [
  | some provider ↦ (ok provider, app)
  | none ↦ elim (get_keycloak_auth_service app) [
    | err e ↦ (err e, app)
    | ok o ↦ (ok (provider_of o), record app { auth_provider = some (provider_of o) })
  ]
]

abbrev invalid_token : (Exn → Bool) → Result AuthenticatedUser → Result AuthenticatedUser
invalid_token is_token_validation_error (ok user) = ok user
invalid_token is_token_validation_error (err e) =
    if is_token_validation_error e then err (http_exception 401 "Invalid token" bearer) else err e

-- `extract` is the provider's `extract_user_info`.
unfoldable pub get_current_user :
    (Exn → Bool) → (String → Result AuthenticatedUser) → Option String → Result AuthenticatedUser
get_current_user is_token_validation_error extract token = elim (truthy_text token) [
  | none ↦ err (http_exception 401 "Not authenticated" bearer)
  | some t ↦ invalid_token is_token_validation_error (extract t)
]

unfoldable pub raise_for_missing : List String → List String → Result (Unit {0})
raise_for_missing required granted =
    raise_if (not (subset required granted)) (http_exception 403 "Forbidden" [])

unfoldable pub require_roles : List String → AuthenticatedUser → Result AuthenticatedUser
require_roles roles user = raise_for_missing roles (get_roles user) >> ok user

unfoldable pub require_scopes : List String → AuthenticatedUser → Result AuthenticatedUser
require_scopes scopes user = raise_for_missing scopes (get_scopes user) >> ok user

unfoldable pub require_permissions : List String → AuthenticatedUser → Result AuthenticatedUser
require_permissions permissions user =
    raise_for_missing permissions (get_roles user ++ get_scopes user) >> ok user

pub record UserInfo : Type 0 where
  pub sub : String
  pub username : String
  pub email : Option String
  pub name : Option String
  pub roles : List String
  pub scopes : List String

unfoldable pub to_user_info : AuthenticatedUser → UserInfo
unfolding get_roles get_scopes
to_user_info user = record {
  sub = user.sub;
  username = get_or (truthy_text user.preferred_username) user.sub;
  email = user.email;
  name = user.name;
  roles = get_roles user;
  scopes = get_scopes user;
}

-- The status, detail and outcome for a class of errors.
abbrev pub Row : Type 0
Row = ℕ × (String × String)

unfoldable pub token_issue_errors : List (String × Row)
token_issue_errors =
    ("KeycloakTokenAuthenticationError", (401, ("Authentication failed", "authentication_failed")))
    ∷ (
      "KeycloakTokenConfigurationError",
      (500, ("Authentication service misconfigured", "configuration_error")),
    )
    ∷ (
      "KeycloakTokenTemporaryError",
      (503, ("Authentication service unavailable", "temporary_error")),
    )
    ∷ ("KeycloakTokenError", (502, ("Authentication service error", "upstream_error")))
    ∷ []

abbrev pub unexpected_token_issue_error : Row
unexpected_token_issue_error = (500, ("Authentication service error", "unexpected_error"))

-- `next((mapping for …), default)`, where `is_instance` is `isinstance(exc, …)`
abbrev pub first_row : (String → Bool) → List (String × Row) → Row
first_row is_instance [] = unexpected_token_issue_error
first_row is_instance ((c, row) ∷ rows) =
    let rest = first_row is_instance rows in if is_instance c then row else rest

unfoldable pub token_issue_error : (String → Bool) → Exn
unfolding token_issue_errors
token_issue_error is_instance =
    let row = first_row is_instance token_issue_errors in http_exception row.0 row.1.0 bearer

pub record Token : Type 0 where
  pub access_token : String
  pub refresh_token : Option String
  pub token_type : Option String

-- `" ".join(scopes) or None`
abbrev requested_scope : List String → Option String
requested_scope scopes = truthy_text (some (join " " scopes))

abbrev issued : (Exn → String → Bool) → Result Token → List Event → Result Token × List Event
issued isinstance (ok token) history = (ok token, history)
issued isinstance (err e) history =
    if is_exception e
    then (err (token_issue_error (isinstance e)), logged "token_issue_failed" ∷ history)
    else (err e, history)

abbrev respond : (String → String) → Result Token → Result Token
respond lower (err e) = err e
respond lower (ok token) =
    ok (record token { token_type = some (lower (get_or token.token_type "bearer")) })

-- `fetch` is the provider's `fetch_access_token`, for a scope; `lower` is `str.lower`.
unfoldable pub issue_token :
    (Exn → String → Bool)
    → (String → String)
    → (Option String → Result Token)
    → List String
    → List Event
    → Result Token × List Event
unfolding token_issue_error
issue_token isinstance lower fetch scopes history =
    let (r, history') = issued isinstance (fetch (requested_scope scopes)) history in
    (respond lower r, history')

-- `GET /user`
unfoldable pub read_user :
    (Exn → Bool) → (String → Result AuthenticatedUser) → Option String → Result UserInfo
read_user is_token_validation_error extract token =
    get_current_user is_token_validation_error extract token >>= λ user. ok (to_user_info user)
