-- ===== src/Invocation.antt =====
-- fastapi_core/invocation.py, and `asyncio.wait_for` as it is used there and in readiness.py.
use fastapi_core.Prelude.{Bool, true, false, not, Option, none, some, List, if◌then◌else◌}
use fastapi_core.Prelude.Int.{ℤ, is_positive}
use fastapi_core.Result.{ok, err, value_error, timeout_error}
use fastapi_core.Action.{Action, pure, raise, ◌>>=◌}
use fastapi_core.Store.{Callable, Value, View, awaitable, call, await, timer, Store, World, perform}

abbrev pub is_awaitable : View → Bool
is_awaitable awaitable = true
is_awaitable _ = false

module _ (world : World) where
  -- `await result` if it is awaitable
  unfoldable pub settle : Value → Action Store Value
  unfolding perform
  settle result = if is_awaitable result.view then perform world (await result) else pure result

  -- `invoke`: the result of a coroutine function is the result of awaiting it.
  unfoldable pub invoke : Callable → List Value → Action Store Value
  unfolding settle
  invoke method args = do
    result ← perform world (call method args)
    if method.is_coroutine then pure result else settle result

  -- The call is begun; then the timer says whether it was done in time.
  unfoldable pub wait_for : Option ℤ → Action Store Value → Action Store Value
  unfolding perform
  wait_for none action s = action s
  wait_for (some t) action s =
      let (r, s') = action s in
      let (late, s'') = perform world (timer t) s' in
      elim late [ ok _ ↦ (r, s'') | err e ↦ (err timeout_error, s'') ]

  unfoldable pub invoke_resource : Callable → List Value → Option ℤ → Action Store Value
  unfolding invoke wait_for
  invoke_resource method args none = invoke method args
  invoke_resource method args (some t) =
      if not (is_positive t)
      then raise (value_error "timeout_seconds must be greater than zero")
      else wait_for (some t) (invoke method args)
