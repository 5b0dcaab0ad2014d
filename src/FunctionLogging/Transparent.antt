-- ===== src/FunctionLogging/Transparent.antt =====
-- Logging at function boundaries changes nothing but the log.
use fastapi_core.Prelude.{
  Bool, true, false, ◌≡◌, refl, String, Option, ap, ◌∙◌, inl, inr, Bool-cases,
}
use fastapi_core.Result.{Result, ok, err, is_exception}
use fastapi_core.Action.{Action}
use fastapi_core.FunctionLogging.{
  Logs, LogEntry, Levels, function_start, emit, leave, event_name, log_function_boundary,
}

-- A call does, beside the log, what the other does: whatever stands in the log.
abbrev pub DoesAs {ℓ} : {S : Type 0} {A : Type ℓ} → Action (Logs S) A → Action S A → Type ℓ
DoesAs {S = S} func core =
    (s : Logs S) → ((func s).0 ≡ (core s.state).0) × ((func s).1.state ≡ (core s.state).1)

state-emit :
    {S : Type 0} (enabled : Bool) (entry : LogEntry) (s : Logs S)
    → (emit enabled entry s).state ≡ s.state
state-emit true entry s = refl
state-emit false entry s = refl

module _ {ℓ} {S : Type 0} {A : Type ℓ} (levels : Levels S) where
  pub leave_lem :
      (event : String) (r : Result A) (s : Logs S)
      → ((leave levels event r s).0 ≡ r) × ((leave levels event r s).1.state ≡ s.state)
  leave_lem event (ok a) s = (refl, state-emit (levels.info s.state) _ s)
  leave_lem event (err e) s = elim (Bool-cases (is_exception e)) [
    | inl logged ↦ rw logged (refl, state-emit (levels.error s.state) _ s)
    | inr passed ↦ rw passed (refl, refl)
  ]

  -- If a function does, beside the log, what some action does that has no log, then so does the
  -- decorated function: with the same result or exception, and the same state, whatever is logged.
  pub log_function_boundary-DoesAs :
      (event : Option String) (module_name qualname : String) (func : Action (Logs S) A)
      (core : Action S A)
      → DoesAs func core
      → (s : Logs S)
      → ((log_function_boundary levels event module_name qualname func s).0 ≡ (core s.state).0)
        × ((log_function_boundary levels event module_name qualname func s).1.state
            ≡ (core s.state).1)
  unfolding log_function_boundary
  log_function_boundary-DoesAs event module_name qualname func core h s =
      let name = event_name event module_name qualname in
      let s0 = emit (levels.info s.state) (function_start name) s in
      let left = leave_lem name (func s0).0 (func s0).1 in
      let same : s0.state ≡ s.state = state-emit (levels.info s.state) (function_start name) s in
      (left.0 ∙ (h s0).0 ∙ ap (λ t. (core t).0) same, left.1 ∙ (h s0).1 ∙ ap (λ t. (core t).1) same)
