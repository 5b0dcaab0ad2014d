-- ===== src/Config/Loading.antt =====
-- The cached loaders: `load_app_config` of fastapi_core/config.py, fastapi_core/docmesh_settings.py, and
-- `get_config` of fastapi_core/dependencies/config.py.
use fastapi_core.Prelude.{
  ℕ, String, string_eq, list_eq, Bool, true, false, Option, none, some, List, ◌==◌, dedupe,
  if◌then◌else◌,
}
use fastapi_core.Dict.{Dict}
use fastapi_core.Result.{Result, ok, err}
use fastapi_core.Action.{Action}
use fastapi_core.Config.{AppConfig}

-- `os.environ`, and what the two loaders have cached: `lru_cache(maxsize=1)` keeps the last result with
-- its arguments. The settings of docmesh are an object, by its identity.
pub record Process : Type 0 where
  pub environ : Dict String String
  pub app_config : Option AppConfig
  pub docmesh_settings : Option (Option (List String) × ℕ)

abbrev keep_app_config : Result AppConfig → Action Process AppConfig
keep_app_config (ok c) p = (ok c, record p { app_config = some c })
keep_app_config (err e) p = (err e, p)

-- `read` is how pydantic reads an `AppConfig` from the environment.
unfoldable pub load_app_config : (Dict String String → Result AppConfig) → Action Process AppConfig
load_app_config read p = elim p.app_config [
  | some c ↦ (ok c, p)
  | none ↦ keep_app_config (read p.environ) p
]

abbrev same_arguments : Option (List String) → Option (List String) → Bool
same_arguments none none = true
same_arguments none (some b) = false
same_arguments (some a) none = false
same_arguments (some a) (some b) = a == b

abbrev keep_settings : Option (List String) → Result ℕ → Action Process ℕ
keep_settings services (ok s) p = (ok s, record p { docmesh_settings = some (services, s) })
keep_settings services (err e) p = (err e, p)

-- `set(enabled_services)`, if it is there
abbrev as_set : Option (List String) → Option (List String)
as_set none = none
as_set (some services) = some (dedupe services)

-- `load` is docmesh_config's `load_service_configs` in an environment.
unfoldable pub load_docmesh_settings :
    (Option (List String) → Dict String String → Result ℕ) → Option (List String) → Action Process ℕ
load_docmesh_settings load services p = elim p.docmesh_settings [
  | none ↦ keep_settings services (load (as_set services) p.environ) p
  | some (before, s) ↦
      if same_arguments before services
      then (ok s, p)
      else keep_settings services (load (as_set services) p.environ) p
]

-- The configuration of the application's state, or else the cached one.
unfoldable pub get_config :
    (Dict String String → Result AppConfig) → Option AppConfig → Action Process AppConfig
unfolding load_app_config
get_config read (some config) p = (ok config, p)
get_config read none p = load_app_config read p
