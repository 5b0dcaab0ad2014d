-- ===== src/Config.antt =====
-- fastapi_core/config.py: the settings and their validators. pydantic reads the values and coerces
-- them; `Raw` is what reaches the validators.
pub mod Csv
pub mod Services
pub mod Loading
use fastapi_core.Prelude.{
  ℕ, String, string_eq, ◌==◌, Bool, true, false, not, ◌&&◌, ◌||◌, Option, none, some, List, [], ◌∷◌,
  map, filter, contains, subset, is_empty, dedupe, leb, if◌then◌else◌,
}
use fastapi_core.Prelude.Int.{ℤ, pos, is_positive, is_negative}
use fastapi_core.Text.{strip, split, is_blank, is_nil, join, sorted, ◌<>◌}
use fastapi_core.Result.{Result, ok, err, value_error, raise_if, ◌>>◌}

pub data StartupFailureMode : Type 0 where
  fail report : StartupFailureMode

pub record AppConfig : Type 0 where
  pub root_path : String
  pub token_url : String
  pub cors_origins : List String
  pub cors_credentials : Bool
  pub readiness_parallel : Bool
  pub readiness_timeout_seconds : Option ℤ
  pub readiness_overall_timeout_seconds : Option ℤ
  pub service_alternatives : List (List String)
  pub startup_healthcheck : Bool
  pub startup_failure_mode : StartupFailureMode
  pub startup_healthcheck_attempts : ℕ
  pub startup_healthcheck_retry_delay_seconds : ℤ
  pub log_level : Option String
  pub log_path : Option String
  pub log_json : Bool
  pub log_force : Bool
  pub access_log_enabled : Bool
  pub access_log_health_enabled : Bool
  pub enabled_services : List String
  pub required_services : List String

-- The defaults of the fields.
abbrev pub default_config : AppConfig
default_config = record {
  root_path = "";
  token_url = "/token";
  cors_origins = "*" ∷ [];
  cors_credentials = false;
  readiness_parallel = false;
  readiness_timeout_seconds = none;
  readiness_overall_timeout_seconds = none;
  service_alternatives = [];
  startup_healthcheck = false;
  startup_failure_mode = fail;
  startup_healthcheck_attempts = 1;
  startup_healthcheck_retry_delay_seconds = pos 0;
  log_level = some "WARNING";
  log_path = none;
  log_json = true;
  log_force = false;
  access_log_enabled = true;
  access_log_health_enabled = false;
  enabled_services = [];
  required_services = [];
}

abbrev is_bound_ok : Option ℤ → Bool
is_bound_ok none = true
is_bound_ok (some t) = is_positive t

-- The bounds `gt=0`, `ge=1` and `ge=0` of the fields.
unfoldable pub within_bounds : AppConfig → Bool
within_bounds c =
    is_bound_ok c.readiness_timeout_seconds
    && is_bound_ok c.readiness_overall_timeout_seconds
    && leb 1 c.startup_healthcheck_attempts
    && not (is_negative c.startup_healthcheck_retry_delay_seconds)

-- What a source gives for a field, before coercion.
pub data Raw : Type 0 where
  null : Raw
  text : String → Raw
  names : List String → Raw
  groups : List (List String) → Raw

abbrev pub csv_list_fields : List String
csv_list_fields = "cors_origins" ∷ "enabled_services" ∷ "required_services" ∷ []

abbrev is_empty_text : Raw → Bool
is_empty_text (text s) = is_nil s
is_empty_text _ = false

-- `_AppEnvSettingsSource.prepare_field_value`, with the method of `EnvSettingsSource`.
unfoldable pub prepare_field_value : (String → Raw → Raw) → String → Raw → Raw
prepare_field_value super field_name value =
    if contains field_name csv_list_fields && is_empty_text value
    then names []
    else super field_name value

unfoldable pub parse_csv_env : String → List String
parse_csv_env raw = map strip (filter (λ value. not (is_blank value)) (split b',' raw))

unfoldable pub parse_csv_or_sequence : Raw → Result Raw
parse_csv_or_sequence (text s) =
    if is_blank s
    then err (value_error "empty strings are only supported through environment variables")
    else ok (names (parse_csv_env s))
parse_csv_or_sequence value = ok value

-- `[services for group in value.split(";") if (services := _parse_csv_env(group))]`
unfoldable pub parse_groups : String → List (List String)
parse_groups s = filter (λ services. not (is_empty services)) (map parse_csv_env (split b';' s))

unfoldable pub parse_service_alternatives : Raw → Raw
parse_service_alternatives null = groups []
parse_service_alternatives (text s) = if is_nil s then groups [] else groups (parse_groups s)
parse_service_alternatives value = value

-- `set(required) - set(enabled)`, in the order of the list
unfoldable pub missing_services : AppConfig → List String
missing_services c = filter (λ s. not (contains s c.enabled_services)) c.required_services

unfoldable pub validate_required_services : AppConfig → Result AppConfig
validate_required_services c =
    let missing = missing_services c in
    raise_if (not (is_empty missing)) (
      value_error (
        "required_services must be included in enabled_services: "
        <> join ", " (sorted (dedupe missing))))
    >> ok c
