-- ===== src/Streaming.antt =====
-- fastapi_core/streaming.py: a response that closes its producer's resource. The framework's part, which
-- sends the content, is a parameter.
pub mod Once
use fastapi_core.Prelude.{
  String, Bool, true, false, Option, none, some, or_else, List, [], ◌∷◌, if◌then◌else◌,
}
use fastapi_core.Result.{Exn, Result, ok, err, cancelled, noted}
use fastapi_core.Action.{Action}
use fastapi_core.Store.{Callable, Value, Store, World}
use fastapi_core.Invocation.{invoke_resource}

pub record ManagedStreamingResponse : Type 0 where
  pub resource : Option Value
  pub resource_close : Option Callable

-- The store, with the response's `_closed`. The lock makes closings follow one another.
pub record State : Type 0 where
  pub store : Store
  pub closed : Bool

abbrev own_close : Option Value → Option Callable
own_close none = none
own_close (some v) = or_else v.aclose v.close

unfoldable pub close_callable : ManagedStreamingResponse → Option Callable
close_callable r = or_else r.resource_close (own_close r.resource)

abbrev done : Result Value → Result (Unit {0})
done (ok v) = ok tt
done (err e) = err e

module _ (world : World) (r : ManagedStreamingResponse) where
  unfoldable pub close_by : Option Callable → Action State (Unit {0})
  close_by none s = (ok tt, s)
  close_by (some f) s =
      let (result, store) = invoke_resource world f [] none s.store in
      (done result, record s { store = store })

  unfoldable pub close_once : Action State (Unit {0})
  unfolding close_by
  close_once s =
      if s.closed then (ok tt, s) else close_by (close_callable r) (record s { closed = true })

  -- What the closing comes to when the waiting task is cancelled: the closing ends all the same.
  abbrev when_cancelled : Bool → Result (Unit {0}) → Result (Unit {0})
  when_cancelled false result = result
  when_cancelled true (ok v) = err cancelled
  when_cancelled true (err e) = err e

  unfoldable pub close_with_cancellation_protection : Bool → Action State (Unit {0})
  unfolding close_once
  close_with_cancellation_protection is_cancelled s =
      let (result, s') = close_once s in (when_cancelled is_cancelled result, s')

  -- The error of the response, with a note if closing failed.
  abbrev pub with_note : Exn → Result (Unit {0}) → Exn
  with_note error (ok v) = error
  with_note error (err e) = noted error "managed streaming resource close failed: " e

  unfoldable pub close_preserving_error : Bool → Exn → State → Exn × State
  unfolding close_with_cancellation_protection
  close_preserving_error is_cancelled error s =
      let (result, s') = close_with_cancellation_protection is_cancelled s in
      (with_note error result, s')

  abbrev pub conclude : Bool → Result (Unit {0}) → Action State (Unit {0})
  conclude is_cancelled (ok v) s = close_with_cancellation_protection is_cancelled s
  conclude is_cancelled (err error) s =
      let (e, s') = close_preserving_error is_cancelled error s in (err e, s')

  -- `__call__`: `send` is what the framework does, `is_cancelled` whether the task is cancelled while it
  -- waits for the closing.
  unfoldable pub call_response : Action Store (Unit {0}) → Bool → Action State (Unit {0})
  call_response send is_cancelled s =
      let (result, store) = send s.store in
      conclude is_cancelled result (record s { store = store })
