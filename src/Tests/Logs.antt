-- ===== src/Tests/Logs.antt =====
-- Logging at function boundaries, and a log record.
use fastapi_core.Prelude.{ℕ, ◌+◌, ◌≡◌, refl, sym, append-nil, true, none, some, List, [], ◌++◌}
use fastapi_core.Result.{ok}
use fastapi_core.Action.{Action, ◌>>=◌}
use fastapi_core.FunctionLogging.{Logs, LogEntry, log_function_boundary}
use fastapi_core.FunctionLogging.Transparent.{log_function_boundary-DoesAs}
use fastapi_core.FunctionLogging.Balanced.{
  passes, >>=-AddsBalanced, Balanced, verbose, AddsBalanced, log_function_boundary-AddsBalanced,
}
use fastapi_core.Logging.{format}
use fastapi_core.Logging.Records.{Fields, record_of, format-is_plain}
use fastapi_core.Json.Dumps.Lines.{is_plain}

-- A counter, with a log beside it and without.
abbrev count : Action ℕ ℕ
count n = (ok n, n + 1)

abbrev logged_count : Action (Logs ℕ) ℕ
logged_count s = (ok s.state, record s { state = s.state + 1 })

abbrev start : Logs ℕ
start = record { entries = []; state = 3 }

log_function_boundary-DoesAs_example :
    ((log_function_boundary verbose none "app" "count" logged_count start).0 ≡ ok 3)
    × ((log_function_boundary verbose none "app" "count" logged_count start).1.state ≡ 4)
log_function_boundary-DoesAs_example =
    log_function_boundary-DoesAs verbose none "app" "count" logged_count count (λ s. (refl, refl))
      start

quiet : AddsBalanced logged_count
quiet s p = ([], sym (append-nil s.entries), Balanced.none)

-- A function that calls a decorated one twice.
abbrev decorated : Action (Logs ℕ) ℕ
decorated = log_function_boundary verbose none "app" "count" logged_count

abbrev count_twice : Action (Logs ℕ) ℕ
count_twice = decorated >>= λ n. decorated

twice-AddsBalanced : AddsBalanced count_twice
twice-AddsBalanced =
    let each = log_function_boundary-AddsBalanced none "app" "count" logged_count quiet in
    >>=-AddsBalanced decorated (λ n. decorated) each (λ n. each)

returns : passes (log_function_boundary verbose none "app" "count_twice" count_twice start).0 ≡ true
unfolding log_function_boundary
returns = refl

log_function_boundary-AddsBalanced_example :
    (added : List LogEntry) × ((log_function_boundary verbose none "app" "count_twice" count_twice
        start).1.entries
      ≡ [] ++ added)
    × Balanced added
log_function_boundary-AddsBalanced_example =
    log_function_boundary-AddsBalanced none "app" "count_twice" count_twice twice-AddsBalanced start
      returns

format-is_plain_example :
    (is_plain (format (record_of "12:00" "app" "ERROR" "a\nb" (some "-") none (some "Traceback\n")))
      ≡ true)
    × Fields "12:00" "app" "ERROR" "a\nb" (some "-") none (some "Traceback\n")
format-is_plain_example =
    format-is_plain "12:00" "app" "ERROR" "a\nb" (some "-") none (some "Traceback\n")
