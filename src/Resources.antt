-- ===== src/Resources.antt =====
-- fastapi_core/resources.py: keys, managed resources, bindings and the checks of the registry.
pub mod Running
pub mod Calls
pub mod Validation
pub mod Held
pub mod Closing
pub mod Progress
pub mod Starting
pub mod Unregistered
pub mod Steps
use fastapi_core.Prelude.{
  ℕ, String, string_eq, Bool, true, false, not, ◌&&◌, Option, none, some, List, [], ◌∷◌, ◌++◌, map,
  contains, add, if◌then◌else◌,
}
use fastapi_core.Prelude.Int.{ℤ}
use fastapi_core.Text.{is_blank, ◌<>◌}
use fastapi_core.Dict.{Dict, get}
use fastapi_core.Result.{
  Exn, Result, ok, err, value_error, http_exception, key_error, raise_if, ◌>>=◌, ◌>>◌,
}
use fastapi_core.Store.{Callable, Value, Store}
use fastapi_core.Readiness.{is_bad_timeout}

-- `ResourceKey(name)`
unfoldable pub resource_key : String → Result String
resource_key name =
    raise_if (is_blank name) (value_error "resource key name must not be empty") >> ok name

-- A name is a text or a `ResourceKey`, by the key's name.
pub data ResourceName : Type 0 where
  text : String → ResourceName
  key : String → ResourceName

-- The fields that a managed resource and a binding share.
pub record Options : Type 0 where
  pub factory : Callable
  pub healthcheck : Option Callable
  pub close : Option Callable
  pub required : Bool
  pub readiness_timeout_seconds : Option ℤ
  pub redact_errors : Bool
  pub health_result_adapter : Option Callable

pub record ManagedResource : Type 0 where
  pub name : ResourceName
  pub options : Options
  pub open options use *

pub record ResourceBinding : Type 0 where
  pub key : String
  pub options : Options
  pub open options use *

pub data Resource : Type 0 where
  managed : ManagedResource → Resource
  binding : ResourceBinding → Resource

-- `ResourceRegistry._name`
abbrev pub name_of : ResourceName → String
name_of (text n) = n
name_of (key n) = n

abbrev pub resource_name : ManagedResource → String
resource_name r = name_of r.name

-- `ResourceBinding(key, …)` with its `__post_init__`
unfoldable pub make_binding : ResourceName → Options → Result ResourceBinding
unfolding resource_key
make_binding (key k) options = ok (record { key = k; options = options })
make_binding (text k) options = resource_key k >>= λ k'. ok (record { key = k'; options = options })

abbrev is_blank_text : ResourceName → Bool
is_blank_text (text n) = is_blank n
is_blank_text (key n) = false

unfoldable pub bind : ManagedResource → Result ResourceBinding
unfolding make_binding
bind r =
    raise_if (is_blank_text r.name) (value_error "resource name must not be empty")
    >> make_binding r.name r.options

unfoldable pub managed_resource : ResourceBinding → ManagedResource
managed_resource b = record { name = key b.key; options = b.options }

unfoldable pub to_binding : Resource → Result ResourceBinding
unfolding bind
to_binding (binding b) = ok b
to_binding (managed r) = bind r

unfoldable pub to_bindings : List Resource → Result (List ResourceBinding)
unfolding to_binding
to_bindings [] = ok []
to_bindings (r ∷ rs) = do b ← to_binding r; bs ← to_bindings rs; ok (b ∷ bs)

abbrev pub reserved_resource_names : List String
reserved_resource_names =
    "auth_provider" ∷ "config" ∷ "readiness_registry" ∷ "resource_registry" ∷ "resources"
    ∷ "root_logger" ∷ "service_clients" ∷ "service_runtime" ∷ "settings" ∷ []

unfoldable pub validate_resource : List String → List String → ManagedResource → Result (Unit {0})
validate_resource reserved names r =
    let name = resource_name r in
    raise_if (is_blank name) (value_error "resource name must not be empty")
    >> raise_if (contains name reserved)
        (value_error ("resource name '" <> name <> "' is reserved"))
    >> raise_if (contains name names)
        (value_error ("resource name '" <> name <> "' is already registered"))
    >> raise_if (is_bad_timeout r.readiness_timeout_seconds)
        (value_error "managed resource readiness_timeout_seconds must be greater than zero")

-- The loop of `_validate`, with the names seen before.
unfoldable pub validate : List String → List String → List ManagedResource → Result (Unit {0})
unfolding validate_resource
validate reserved names [] = ok tt
validate reserved names (r ∷ rs) =
    validate_resource reserved names r >> validate reserved (add (resource_name r) names) rs

pub record ResourceRegistry : Type 0 where
  pub bindings : List ResourceBinding
  pub resources : List ManagedResource

-- `ResourceRegistry(resources, readiness, reserved_names=reserved)`; `readiness` and `instances` are
-- of the store.
unfoldable pub make_registry : List String → List Resource → Result ResourceRegistry
unfolding to_bindings managed_resource validate
make_registry reserved resources = do
  bindings ← to_bindings resources
  let managed_resources = map managed_resource bindings
  validate reserved [] managed_resources
  ok (record { bindings = bindings; resources = managed_resources })

-- `registry.require(name)`
unfoldable pub require : ResourceName → Store → Result Value
require name s = elim (get (name_of name) s.instances) [
  | none ↦ err (key_error (name_of name))
  | some v ↦ ok v
]

abbrev not_available : String → Exn
not_available name = http_exception 503 ("Managed resource '" <> name <> "' is not available") []

abbrev or_not_available : String → Result Value → Result Value
or_not_available name (err (key_error k)) = err (not_available name)
or_not_available name r = r

-- `ResourceKey.dependency`; `none` is an application with no `resource_registry`.
unfoldable pub dependency : String → Option Store → Result Value
unfolding require
dependency name none = err (not_available name)
dependency name (some s) = or_not_available name (require (key name) s)
