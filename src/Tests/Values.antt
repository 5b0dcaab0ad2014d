-- ===== src/Tests/Values.antt =====
-- Shared test data: callables, objects, and an outside world that answers every event with an object.
use fastapi_core.Prelude.{String, true, false, none, some, [], ◌∷◌, nat_beq, if◌then◌else◌}
use fastapi_core.Prelude.Int.{pos}
use fastapi_core.Result.{ok, err, close_error, runtime_error}
use fastapi_core.Store.{
  Callable, Value, other, call, close_runtime, plain, ReadinessCheckSpec, ReadinessRegistry, Store,
  World,
}

abbrev pub opener : Callable
opener = record { ident = 1; is_coroutine = true }

abbrev pub closer : Callable
closer = record { ident = 2; is_coroutine = false }

abbrev pub probe : Callable
probe = record { ident = 3; is_coroutine = true }

abbrev pub pool : Value
pool = record { ident = 7; view = other; aclose = some closer; close = none }

abbrev pub app_value : Value
app_value = record { ident = 0; view = other; aclose = none; close = none }

-- Everything answers with the pool.
abbrev pub calm : World
calm history event = ok pool

-- Only the first resource can be created.
abbrev pub broken : World
broken (e ∷ history) (call f args) =
    if nat_beq f.ident opener.ident then err (runtime_error "no connection") else ok pool
broken history event = ok pool

-- A runtime that cannot be closed.
abbrev pub stuck : World
stuck history (close_runtime n) = err (close_error 1)
stuck history event = ok pool

abbrev pub spec : String → ReadinessCheckSpec
spec name = record {
  name = name;
  check = plain probe;
  required = true;
  timeout_seconds = some (pos 5);
  redact_errors = true;
  health_result_adapter = none;
}

abbrev pub empty_registry : ReadinessRegistry
empty_registry = record { default_timeout_seconds = some (pos 3); specs = [] }

abbrev pub database_registry : ReadinessRegistry
database_registry = record {
  default_timeout_seconds = some (pos 3);
  specs = ("database", spec "database") ∷ [];
}

abbrev pub empty_store : Store
empty_store = record { history = []; readiness = empty_registry; instances = [] }

-- Nothing answers.
abbrev pub down : World
down history event = err (runtime_error "no connection")
