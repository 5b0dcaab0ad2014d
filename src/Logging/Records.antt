-- ===== src/Logging/Records.antt =====
-- What a formatted log record is.
use fastapi_core.Prelude.{
  String, string_eq, true, ◌≡◌, Option, none, some, refl, false, Bool-cases, inl, inr, ◌==◌,
  if◌then◌else◌,
}
use fastapi_core.Dict.{get, put}
use fastapi_core.Json.{Json, text, object, of_entries}
use fastapi_core.Json.Dumps.Lines.{is_plain, is_plain-dumps}
use fastapi_core.Logging.{LogRecord, payload_of, format}

abbrev pub text_of : Option String → Option Json
text_of none = none
text_of (some s) = some (text s)

-- The event of a function is left out if it is the dash that stands for none.
abbrev pub event_text : Option String → Option Json
event_text none = none
event_text (some e) = if e == "-" then none else some (text e)

module _ (time name levelname message : String) where
  abbrev pub record_of : Option String → Option Json → Option String → LogRecord
  record_of function_event event exception = record {
    time = time;
    name = name;
    levelname = levelname;
    message = message;
    function_event = function_event;
    event = event;
    exception = exception;
  }

  abbrev pub Fields : Option String → Option Json → Option String → Type 0
  Fields function_event event exception =
      let payload = payload_of (record_of function_event event exception) in
      (get "message" payload ≡ some (text message))
      × (get "function_event" payload ≡ event_text function_event)
      × (get "event" payload ≡ event)
      × (get "exception" payload ≡ text_of exception)

  without : (event : Option Json) (exception : Option String) → Fields none event exception
  unfolding payload_of get put
  without none none = (refl, refl, refl, refl)
  without none (some x) = (refl, refl, refl, refl)
  without (some j) none = (refl, refl, refl, refl)
  without (some j) (some x) = (refl, refl, refl, refl)

  within :
      (e : String) (event : Option Json) (exception : Option String)
      → (e == "-") ≡ false
      → Fields (some e) event exception
  unfolding payload_of get put
  within e none none h = rw h (refl, refl, refl, refl)
  within e none (some x) h = rw h (refl, refl, refl, refl)
  within e (some j) none h = rw h (refl, refl, refl, refl)
  within e (some j) (some x) h = rw h (refl, refl, refl, refl)

  fields :
      (function_event : Option String) (event : Option Json) (exception : Option String)
      → Fields function_event event exception
  unfolding payload_of get put
  fields none event exception = without event exception
  fields (some e) event exception = elim (Bool-cases (e == "-")) [
    | inl dash ↦ rw dash (without event exception)
    | inr named ↦ within e event exception named
  ]

  pub format-is_plain :
      (function_event : Option String) (event : Option Json) (exception : Option String)
      → (is_plain (format (record_of function_event event exception)) ≡ true)
        × Fields function_event event exception
  unfolding format
  format-is_plain function_event event exception = (
    is_plain-dumps (object (of_entries (payload_of (record_of function_event event exception)))),
    fields function_event event exception,
  )
