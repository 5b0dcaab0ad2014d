-- ===== src/Store.antt =====
-- What a running application holds, and the world outside: the objects and callables that it is
-- handed, each with its identity, and the history of what it asked of them.
use fastapi_core.Prelude.{ℕ, String, Bool, Option, List, ◌∷◌, nat_beq}
use fastapi_core.Prelude.Int.{ℤ}
use fastapi_core.Docmesh.{ServiceHealthStatus, HealthCheckResult}
use fastapi_core.Result.{Result}
use fastapi_core.Action.{Action}
use fastapi_core.Dict.{Dict}

-- A callable, with `inspect.iscoroutinefunction` of it.
pub record Callable : Type 0 where
  pub ident : ℕ
  pub is_coroutine : Bool

-- What the program can tell of an object by `is`, `isinstance` and `hasattr(…, "ok")`.
pub data View : Type 0 where
  nothing : View
  flag : Bool → View
  health_result : HealthCheckResult → View
  health_status : ServiceHealthStatus → View
  -- an object with `ok`, and with `error` if that is there and truthy
  outcome : Bool → Option String → View
  awaitable : View
  other : View

-- An object, with its `aclose` and `close` where these are there and callable.
pub record Value : Type 0 where
  pub ident : ℕ
  pub view : View
  pub aclose : Option Callable
  pub close : Option Callable

-- `a is b`
abbrev pub same_value : Value → Value → Bool
same_value a b = nat_beq a.ident b.ident

abbrev pub same_callable : Callable → Callable → Bool
same_callable f g = nat_beq f.ident g.ident

-- What the program asks of the outside, in the order of time.
pub data Event : Type 0 where
  call : Callable → List Value → Event
  await : Value → Event
  -- the timer of `asyncio.wait_for`
  timer : ℤ → Event
  -- methods of a `ServiceRuntime`, by its identity
  check_runtime close_runtime : ℕ → Event
  assemble_runtime : Event
  -- the code inside the lifespan: the `lifespan` argument's two halves, and serving
  enter_lifespan serve exit_lifespan : Event
  logged : String → Event

-- A check is a callable, or one with arguments bound by `functools.partial`.
pub data Check : Type 0 where
  plain : Callable → Check
  partial : Callable → List Value → Check

pub record ReadinessCheckSpec : Type 0 where
  pub name : String
  pub check : Check
  pub required : Bool
  pub timeout_seconds : Option ℤ
  pub redact_errors : Bool
  pub health_result_adapter : Option Callable

pub record ReadinessRegistry : Type 0 where
  pub default_timeout_seconds : Option ℤ
  pub specs : Dict String ReadinessCheckSpec

-- The history is newest first. The readiness registry is one object, which the application, the
-- resource registry and the health router share.
pub record Store : Type 0 where
  pub history : List Event
  pub readiness : ReadinessRegistry
  pub instances : Dict String Value

-- The outside world: how it answers an event after a history.
abbrev pub World : Type 0
World = List Event → Event → Result Value

-- Ask the world.
unfoldable pub perform : World → Event → Action Store Value
perform world event s = (world s.history event, record s { history = event ∷ s.history })
