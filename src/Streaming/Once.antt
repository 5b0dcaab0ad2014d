-- ===== src/Streaming/Once.antt =====
-- The resource of a stream is closed once.
use fastapi_core.Prelude.{
  Bool, true, false, ◌≡◌, refl, ◌⊎◌, inl, inr, Option, none, some, List, [], ◌∷◌, ◌++◌,
}
use fastapi_core.Result.{Exn, Result, ok, err, noted}
use fastapi_core.Action.{Action}
use fastapi_core.Store.{Callable, Event, call, Store, World}
use fastapi_core.Resources.Held.{calls}
use fastapi_core.Resources.Closing.{invoke_resource-Calls}
use fastapi_core.Streaming.{
  ManagedStreamingResponse, State, close_callable, close_by, close_once,
  close_with_cancellation_protection, conclude, with_note, close_preserving_error, call_response,
}

-- The call that closes the resource, if there is something to call.
abbrev pub close_event : Option Callable → List Event
close_event none = []
close_event (some f) = call f [] ∷ []

-- The error of a response, itself or with a note.
abbrev pub Keeps : Exn → Result (Unit {0}) → Type 0
Keeps error result =
    (result ≡ err error)
    ⊎ ((e : Exn) × (result ≡ err (noted error "managed streaming resource close failed: " e)))

module _ (world : World) (r : ManagedStreamingResponse) where
  close_by_lem :
      (o : Option Callable) (s : State)
      → let s' = (close_by world r o s).1 in
        (s'.closed ≡ s.closed) × (calls s'.store.history ≡ close_event o ++ calls s.store.history)
  unfolding close_by
  close_by_lem none s = (refl, refl)
  close_by_lem (some f) s = (refl, (invoke_resource-Calls world f [] s.store).history)

  close_once_lem :
      (s : State)
      → s.closed ≡ false
      → let s' = (close_once world r s).1 in
        (s'.closed ≡ true)
        × (calls s'.store.history ≡ close_event (close_callable r) ++ calls s.store.history)
  unfolding close_once
  close_once_lem s h = rw h (close_by_lem (close_callable r) (record s { closed = true }))

  close_once-again : (s : State) → s.closed ≡ true → close_once world r s ≡ (ok tt, s)
  unfolding close_once
  close_once-again s h = rw h refl

  conclude-state :
      (b : Bool) (result : Result (Unit {0})) (s : State)
      → (conclude world r b result s).1 ≡ (close_once world r s).1
  unfolding close_preserving_error close_with_cancellation_protection
  conclude-state b (ok v) s = refl
  conclude-state b (err e) s = refl

  with_note-Keeps :
      (error : Exn) (result : Result (Unit {0}))
      → Keeps error (err (with_note world r error result))
  with_note-Keeps error (ok v) = inl refl
  with_note-Keeps error (err e) = inr (e, refl)

  -- For a response that is not closed: whatever sending comes to, and whether or not the task is
  -- cancelled meanwhile, what closes the resource, if there is anything, has been called once when
  -- the response ends, behind the calls of sending; and closing it again does nothing.
  pub call_response-once :
      (send : Action Store (Unit {0})) (is_cancelled : Bool) (s : State)
      → s.closed ≡ false
      → let s' = (call_response world r send is_cancelled s).1 in
        (calls s'.store.history ≡ close_event (close_callable r) ++ calls (send s.store).1.history)
        × (close_once world r s' ≡ (ok tt, s'))
  unfolding call_response
  call_response-once send is_cancelled s h =
      let (result, store) = send s.store in
      let sent = record s { store = store } in
      let (closed, called) = close_once_lem sent h in
      rw (conclude-state is_cancelled result sent)
        (called, close_once-again (close_once world r sent).1 closed)

  -- An error of sending is what the response raises, at most with a note on the closing.
  pub call_response-Keeps :
      (send : Action Store (Unit {0})) (is_cancelled : Bool) (s : State) (error : Exn)
      → (send s.store).0 ≡ err error
      → Keeps error (call_response world r send is_cancelled s).0
  unfolding call_response close_preserving_error
  call_response-Keeps send is_cancelled s error h = rw h (with_note-Keeps error _)
