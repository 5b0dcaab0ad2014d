-- ===== src/Auth/Permissions.antt =====
-- Who passes the dependencies that require roles, scopes and permissions.
use fastapi_core.Prelude.{
  String, string_eq, Bool, ◌≡◌, refl, List, [], ◌∷◌, ◌++◌, contains, any, arith, ◌||◌,
  contains-append, contains-dedupe, subset, all, if◌then◌else◌,
}
use fastapi_core.Dict.{Dict, values}
use fastapi_core.Result.{ok, err, http_exception}
use fastapi_core.Auth.{
  AuthenticatedUser, concat, get_roles, get_scopes, raise_for_missing, require_permissions,
}

-- A role of the realm, or of some client.
abbrev pub has_role : String → AuthenticatedUser → Bool
has_role p user = contains p user.realm_roles || any (λ c. contains p c.1) user.client_roles

contains-concat :
    (p : String) (d : Dict String (List String))
    → contains p (concat (values d)) ≡ any (λ c. contains p c.1) d
contains-concat p [] = refl
contains-concat p ((c, roles) ∷ d) =
    ground (arith, contains-append p roles (concat (values d)), contains-concat p d)

contains-get_roles :
    (p : String) (user : AuthenticatedUser) → contains p (get_roles user) ≡ has_role p user
unfolding get_roles
contains-get_roles p user = ground (
  arith,
  contains-dedupe p (user.realm_roles ++ concat (values user.client_roles)),
  contains-append p user.realm_roles (concat (values user.client_roles)),
  contains-concat p user.client_roles,
)

-- A permission that the user has, as a role or as a scope.
abbrev pub is_granted : AuthenticatedUser → String → Bool
is_granted user p = has_role p user || contains p (get_scopes user)

contains-granted :
    (p : String) (user : AuthenticatedUser)
    → contains p (get_roles user ++ get_scopes user) ≡ is_granted user p
contains-granted p user =
    ground (arith, contains-append p (get_roles user) (get_scopes user), contains-get_roles p user)

subset-granted :
    (ps : List String) (user : AuthenticatedUser)
    → subset ps (get_roles user ++ get_scopes user) ≡ all (is_granted user) ps
subset-granted [] user = refl
subset-granted (p ∷ ps) user = ground (arith, contains-granted p user, subset-granted ps user)

-- The user passes if each permission is a role of the realm, a role of some client, or a scope;
-- otherwise the answer is 403.
pub require_permissions_lem :
    (permissions : List String) (user : AuthenticatedUser)
    → require_permissions permissions user ≡ (
        if all (is_granted user) permissions
        then ok user
        else err (http_exception 403 "Forbidden" []))
unfolding require_permissions raise_for_missing
require_permissions_lem permissions user = ground (arith, subset-granted permissions user)
