-- ===== src/Resources/Calls.antt =====
-- `ResourceBinding.call` of fastapi_core/resources.py.
use fastapi_core.Prelude.{String, Option, none, some, List}
use fastapi_core.Prelude.Int.{ℤ}
use fastapi_core.Result.{Result, value_error}
use fastapi_core.Action.{Action, pure, raise, lift, ◌>>=◌}
use fastapi_core.Store.{Callable, Value, Store, World}
use fastapi_core.Invocation.{invoke_resource}

-- A method, or the name of one.
pub data Method : Type 0 where
  method : Callable → Method
  named : String → Method

-- `attribute` is `getattr`.
unfoldable pub resolve_method :
    (Value → String → Result Callable) → Method → Option Value → Action Store Callable
resolve_method attribute (method m) instance_value = pure m
resolve_method attribute (named name) none =
    raise (value_error "resource method name requires a typed instance")
resolve_method attribute (named name) (some value) = lift (attribute value name)

unfoldable pub call :
    World
    → (Value → String → Result Callable)
    → Method
    → List Value
    → Option Value
    → Option ℤ
    → Action Store Value
unfolding resolve_method
call world attribute m args instance_value timeout_seconds = do
  f ← resolve_method attribute m instance_value
  invoke_resource world f args timeout_seconds
