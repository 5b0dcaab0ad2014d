-- ===== src/FunctionLogging.antt =====
-- `log_function_boundary` of fastapi_core/function_logging.py. A call is an action; that of a coroutine
-- function is the same, with what it awaits.
pub mod Transparent
pub mod Balanced
use fastapi_core.Prelude.{String, Bool, Option, List, [], ◌∷◌, ◌++◌, get_or, if◌then◌else◌}
use fastapi_core.Text.{truthy_text, ◌<>◌}
use fastapi_core.Result.{Exn, Result, ok, err, is_exception}
use fastapi_core.Action.{Action}

pub data LogEntry : Type 0 where
  function_start function_end : String → LogEntry
  function_error : String → Exn → LogEntry

-- The entries, the oldest first, and the rest of the state.
pub record Logs (S : Type 0) : Type 0 where
  pub entries : List LogEntry
  pub state : S

abbrev pub emit : {S : Type 0} → Bool → LogEntry → Logs S → Logs S
emit enabled entry s = if enabled then record s { entries = s.entries ++ entry ∷ [] } else s

-- `logger.isEnabledFor` of INFO and of ERROR, which the state decides.
pub record Levels (S : Type 0) : Type 0 where
  pub info : S → Bool
  pub error : S → Bool

module _ {ℓ} {S : Type 0} {A : Type ℓ} where
  abbrev pub leave : Levels S → String → Result A → Logs S → Result A × Logs S
  leave levels event (ok a) s = (ok a, emit (levels.info s.state) (function_end event) s)
  leave levels event (err e) s =
      if is_exception e
      then (err e, emit (levels.error s.state) (function_error event e) s)
      else (err e, s)

  -- `wrapper`, and `async_wrapper`
  unfoldable pub wrapper : Levels S → String → Action (Logs S) A → Action (Logs S) A
  wrapper levels event func s =
      let (r, s') = func (emit (levels.info s.state) (function_start event) s) in
      leave levels event r s'

-- `event or f"{func.__module__}.{func.__qualname__}"`
abbrev pub event_name : Option String → String → String → String
event_name event module_name qualname = get_or (truthy_text event) (module_name <> "." <> qualname)

unfoldable pub log_function_boundary {ℓ} :
    {S : Type 0} {A : Type ℓ}
    → Levels S
    → Option String
    → String
    → String
    → Action (Logs S) A
    → Action (Logs S) A
unfolding wrapper
log_function_boundary levels event module_name qualname func =
    wrapper levels (event_name event module_name qualname) func
