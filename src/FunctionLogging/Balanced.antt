-- ===== src/FunctionLogging/Balanced.antt =====
-- The log of decorated functions.
use fastapi_core.Prelude.{
  Bool, true, ◌≡◌, refl, sym, String, Option, ap, ◌∙◌, inl, inr, List, [], ◌∷◌, ◌++◌, append_assoc,
}
use fastapi_core.Result.{Exn, Result, ok, err, Result-cases, is_exception}
use fastapi_core.Action.{Action, ◌>>=◌}
use fastapi_core.FunctionLogging.Transparent.{leave_lem}
use fastapi_core.FunctionLogging.{
  Logs, LogEntry, function_start, function_end, function_error, Levels, emit, event_name,
  log_function_boundary,
}

-- Calls one after the other, each with its start, the calls within, and its end or its error.
pub data Balanced : List LogEntry → Type 0 where
  none : Balanced []
  returned :
      (name : String) (within after : List LogEntry) {log : List LogEntry}
      → Balanced within
      → Balanced after
      → log ≡ function_start name ∷ (within ++ function_end name ∷ after)
      → Balanced log
  raised :
      (name : String) (e : Exn) (within after : List LogEntry) {log : List LogEntry}
      → is_exception e ≡ true
      → Balanced within
      → Balanced after
      → log ≡ function_start name ∷ (within ++ function_error name e ∷ after)
      → Balanced log

-- Everything is logged.
abbrev pub verbose : {S : Type 0} → Levels S
verbose = record { info = λ s. true; error = λ s. true }

abbrev pub passes {ℓ} : {A : Type ℓ} → Result A → Bool
passes (ok a) = true
passes (err e) = is_exception e

-- What a call adds to the log is balanced, unless it is ended by a `BaseException` that is no
-- `Exception`.
abbrev pub AddsBalanced {ℓ} : {S : Type 0} {A : Type ℓ} → Action (Logs S) A → Type 0
AddsBalanced {S = S} func =
    (s : Logs S)
    → passes (func s).0 ≡ true
    → (added : List LogEntry) × ((func s).1.entries ≡ s.entries ++ added) × Balanced added

Balanced-append : {log log' : List LogEntry} → Balanced log → Balanced log' → Balanced (log ++ log')
Balanced-append none b' = b'
Balanced-append {log' = log'} (returned name within after w a e) b' =
    returned name within (after ++ log') w (Balanced-append a b') (
      rw e
        (ap (λ l. function_start name ∷ l) (append_assoc within (function_end name ∷ after) log')))
Balanced-append {log' = log'} (raised name x within after caught w a e) b' =
    raised name x within (after ++ log') caught w (Balanced-append a b') (
      rw e (
        ap (λ l. function_start name ∷ l)
          (append_assoc within (function_error name x ∷ after) log')))

inserted :
    {S : Type 0} (s : Logs S) (name : String) (new : List LogEntry) (last : LogEntry)
    {entries : List LogEntry}
    → entries ≡ (s.entries ++ function_start name ∷ []) ++ new
    → entries ++ last ∷ [] ≡ s.entries ++ function_start name ∷ (new ++ last ∷ [])
inserted s name new last h = rw h (
    append_assoc (s.entries ++ function_start name ∷ []) new (last ∷ [])
    ∙ append_assoc s.entries (function_start name ∷ []) (new ++ last ∷ []))

module _ {ℓ} {S : Type 0} {A : Type ℓ} where
  pub log_function_boundary-AddsBalanced :
      (event : Option String) (module_name qualname : String) (func : Action (Logs S) A)
      → AddsBalanced func
      → (s : Logs S)
      → passes (log_function_boundary verbose event module_name qualname func s).0 ≡ true
      → (added : List LogEntry) × ((log_function_boundary verbose event module_name qualname func
            s).1.entries
          ≡ s.entries ++ added)
        × Balanced added
  unfolding log_function_boundary
  log_function_boundary-AddsBalanced event module_name qualname func h s p =
      let name = event_name event module_name qualname in
      let s0 = emit true (function_start name) s in
      let left = leave_lem verbose name (func s0).0 (func s0).1 in
      let ended : passes (func s0).0 ≡ true = ap passes (sym left.0) ∙ p in
      let (new, adds, b) = h s0 ended in
      elim (Result-cases (func s0).0) [
        | inl (a, e) ↦ (
          function_start name ∷ (new ++ function_end name ∷ []),
          rw e (inserted s name new (function_end name) adds),
          returned name new [] b none refl,
        )
        | inr (x, e) ↦
            let caught : is_exception x ≡ true = ap passes (sym e) ∙ ended in
            (
              function_start name ∷ (new ++ function_error name x ∷ []),
              rw (e, caught) (inserted s name new (function_error name x) adds),
              raised name x new [] caught b none refl,
            )
      ]

  -- Calls one after the other add balanced calls.
  pub >>=-AddsBalanced {κ} :
      {B : Type κ} (first : Action (Logs S) A) (next : A → Action (Logs S) B)
      → AddsBalanced first
      → ((a : A) → AddsBalanced (next a))
      → AddsBalanced (first >>= next)
  >>=-AddsBalanced first next h k s p = elim (Result-cases (first s).0) [
    | inl (a, e) ↦
        let (added, adds, b) = h s (rw e refl) in
        let (added', adds', b') = k a (first s).1 (rw e at p) in
        (
          added ++ added',
          rw e (adds' ∙ ap (λ l. l ++ added') adds ∙ append_assoc s.entries added added'),
          Balanced-append b b',
        )
    | inr (x, e) ↦ let (added, adds, b) = h s (rw e (rw e at p)) in (added, rw e adds, b)
  ]
