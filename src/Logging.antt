-- ===== src/Logging.antt =====
-- fastapi_core/logging.py: the formatter of log records, and the configuration of the handlers. What
-- `logging` and docmesh_py_core's `configure_logging` do is handed in.
pub mod Records
use fastapi_core.Prelude.{
  String, string_eq, Bool, true, false, not, Option, none, some, List, [], ◌∷◌, ◌++◌, map, ℕ,
  if◌then◌else◌, ◌==◌,
}
use fastapi_core.Dict.{Dict, put}
use fastapi_core.Json.{Json, text, object, of_entries}
use fastapi_core.Json.Dumps.{dumps}
use fastapi_core.Config.{AppConfig}

-- A log record, with its time, its message and its exception as `logging` writes them. `event` is `none`
-- where it is missing or `None`.
pub record LogRecord : Type 0 where
  pub time : String
  pub name : String
  pub levelname : String
  pub message : String
  pub function_event : Option String
  pub event : Option Json
  pub exception : Option String

-- `if function_event not in (None, "-")`
abbrev with_function_event : Option String → Dict String Json → Dict String Json
with_function_event none payload = payload
with_function_event (some e) payload =
    if e == "-" then payload else put "function_event" (text e) payload

abbrev with_event : Option Json → Dict String Json → Dict String Json
with_event none payload = payload
with_event (some e) payload = put "event" e payload

abbrev with_exception : Option String → Dict String Json → Dict String Json
with_exception none payload = payload
with_exception (some e) payload = put "exception" (text e) payload

unfoldable pub payload_of : LogRecord → Dict String Json
payload_of r = with_exception r.exception (
    with_event r.event (
      with_function_event r.function_event (
        ("timestamp", text r.time)
        ∷ ("logger", text r.name)
        ∷ ("level", text r.levelname)
        ∷ ("message", text r.message)
        ∷ [])))

-- `JsonLogFormatter.format`
unfoldable pub format : LogRecord → String
unfolding payload_of
format r = dumps (object (of_entries (payload_of r)))

-- A handler of the root logger, with its formatter.
pub data Formatter : Type 0 where
  json_log_formatter : Formatter
  other_formatter : ℕ → Formatter

pub record Handler : Type 0 where
  pub ident : ℕ
  pub formatter : Formatter

abbrev with_json : Handler → Handler
with_json h = record h { formatter = json_log_formatter }

-- The handlers that `configure_logging` gives for the level, the path and `force`, as they are left.
unfoldable pub configure_application_logging :
    (Option String → Option String → Bool → List Handler) → AppConfig → List Handler
configure_application_logging configure_logging config =
    let handlers = configure_logging config.log_level config.log_path config.log_force in
    if config.log_json then map with_json handlers else handlers
