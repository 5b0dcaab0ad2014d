-- ===== src/Services.antt =====
-- fastapi_core/dependencies/services.py: the clients of services, as dependencies of a request.
pub mod Branches
use fastapi_core.Prelude.{String, Bool, true, false, Option, none, some, List, [], if◌then◌else◌}
use fastapi_core.Text.{◌<>◌}
use fastapi_core.Result.{Exn, Result, ok, err, http_exception, ◌>>=◌}
use fastapi_core.Store.{Store, Value}
use fastapi_core.Resources.{resource_key, dependency}
use fastapi_core.Runtime.{Object, is_instance, Client, wrapper, bare, ServiceRuntime, App}

abbrev pub service_not_enabled : String → Exn
service_not_enabled name = http_exception 503 ("Service client '" <> name <> "' is not enabled") []

abbrev pub service_type_mismatch : String → String → Exn
service_type_mismatch name expected =
    http_exception 500 ("Service client '" <> name <> "' is not a " <> expected) []

unfoldable pub get_service_runtime : App → Result ServiceRuntime
get_service_runtime app = elim app.service_runtime [
  | none ↦ err (http_exception 503 "Service runtime is not available" [])
  | some runtime ↦ ok runtime
]

-- `get_settings` of fastapi_core/dependencies/config.py; `configs` is the attribute of a runtime.
unfoldable pub get_settings {ℓ} : {C : Type ℓ} → (ServiceRuntime → C) → App → Result C
unfolding get_service_runtime
get_settings configs app = get_service_runtime app >>= λ runtime. ok (configs runtime)

abbrev enabled : String → Option Client → Result Client
enabled name none = err (service_not_enabled name)
enabled name (some client) = ok client

unfoldable pub resolve_service_client : String → App → Result Client
unfolding get_service_runtime
resolve_service_client name app = do
  runtime ← get_service_runtime app
  enabled name (runtime.client name)

-- The object of a client that is a wrapper
abbrev wrapped : String → Client → Result Object
wrapped name (wrapper o) = ok o
wrapped name (bare o) = err (service_type_mismatch name "wrapped service client")

unfoldable pub resolve_wrapped_service_client : String → App → Result Object
unfolding resolve_service_client
resolve_wrapped_service_client name app = do
  client ← resolve_service_client name app
  wrapped name client

abbrev checked : String → String → Object → Result Object
checked name expected o =
    if is_instance o expected then ok o else err (service_type_mismatch name expected)

unfoldable pub unwrap_service_client : String → String → App → Result Object
unfolding resolve_wrapped_service_client
unwrap_service_client name expected app = do
  o ← resolve_wrapped_service_client name app
  checked name expected o

abbrev pub get_keycloak_auth_service : App → Result Object
get_keycloak_auth_service = unwrap_service_client "keycloak" "KeycloakAuthService"

abbrev pub get_postgres_engine : App → Result Object
get_postgres_engine = unwrap_service_client "postgres" "Engine"

abbrev pub get_sqlite_engine : App → Result Object
get_sqlite_engine = unwrap_service_client "sqlite" "Engine"

abbrev pub get_minio_client : App → Result Object
get_minio_client = unwrap_service_client "minio" "Minio"

abbrev pub get_milvus_client : App → Result Object
get_milvus_client = unwrap_service_client "milvus" "MilvusClient"

abbrev pub get_ollama_client : App → Result Object
get_ollama_client = unwrap_service_client "ollama" "OllamaClient"

abbrev pub get_langfuse_client : App → Result Object
get_langfuse_client = unwrap_service_client "langfuse" "Langfuse"

abbrev object_of : Client → Object
object_of (wrapper o) = o
object_of (bare o) = o

unfoldable pub get_nats_connection_builder : App → Result Object
get_nats_connection_builder app = do
  client ← resolve_service_client "nats" app
  checked "nats" "NatsConnectionBuilder" (object_of client)

-- `get_service_client(service_name)`, as the dependency that it gives
unfoldable pub get_service_client : String → App → Result Client
get_service_client = resolve_service_client

-- What `get_resource` is given: a name, or a key or a binding by the name of its key.
pub data ResourceReference : Type 0 where
  named keyed bound : String → ResourceReference

-- The dependency that `get_resource` gives, on the store of an application. A name is checked when the
-- dependency is made.
unfoldable pub get_resource : ResourceReference → Result (Option Store → Result Value)
get_resource (keyed key) = ok (dependency key)
get_resource (bound key) = ok (dependency key)
get_resource (named name) = resource_key name >>= λ key. ok (dependency key)
