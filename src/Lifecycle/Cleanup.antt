-- ===== src/Lifecycle/Cleanup.antt =====
-- However the lifespan ends, its resources and its runtime are closed, in that order.
use mathlib.Core.Path.{subst}
use fastapi_core.Prelude.{
  ◌≡◌, refl, ◌⊎◌, inl, inr, Option, none, some, List, ◌∷◌, All, sym, string_eq,
}
use fastapi_core.Result.{Result, ok, err, close_error}
use fastapi_core.Dict.{get}
use fastapi_core.Store.{Value, Event, close_runtime, logged, Store, World, perform}
use fastapi_core.Readiness.Run.{Runner}
use fastapi_core.Resources.{resource_name}
use fastapi_core.Resources.Running.{close}
use fastapi_core.Resources.Held.{NoneHeld}
use fastapi_core.Resources.Starting.{close_empties}
use fastapi_core.Runtime.{App, ServiceRuntime}
use fastapi_core.Lifecycle.{
  Assembler, Frame, Lifespan, body, close_app_runtime, cleanup, managed_lifespan, log_close_failure,
}

-- What is asked of the outside once the resources are closed.
abbrev pub ClosedLast : Option ServiceRuntime → List Event → List Event → Type 0
ClosedLast none before after = after ≡ before
ClosedLast (some runtime) before after =
    (after ≡ close_runtime runtime.ident ∷ before)
    ⊎ (after ≡ logged "service_runtime_close_failed" ∷ close_runtime runtime.ident ∷ before)

module _ (world : World) (runner : Runner) (docmesh : Assembler) where
  close_app_runtime_lem :
      (runtime : Option ServiceRuntime) (s : Store)
      → ((close_app_runtime world runner docmesh runtime s).1.instances ≡ s.instances)
        × ClosedLast runtime s.history (close_app_runtime world runner docmesh runtime s).1.history
  unfolding close_app_runtime perform
  close_app_runtime_lem none s = (refl, refl)
  close_app_runtime_lem (some runtime) s = answered (world s.history (close_runtime runtime.ident))
    where
      answered :
          (r : Result Value)
          → let after =
              (log_close_failure world runner docmesh r
                (record s { history = close_runtime runtime.ident ∷ s.history })) in
            (after.instances ≡ s.instances) × ClosedLast (some runtime) s.history after.history
      answered (ok v) = (refl, inl refl)
      answered (err (close_error n)) = (refl, inr refl)
      answered (err e) = (refl, inl refl)

module _ (world : World) (runner : Runner) (docmesh : Assembler) (app_value : Value) (l : Lifespan)
    (app : App) where
  -- The frame that the body of the lifespan leaves, by whatever way.
  abbrev pub left : Frame
  left = (body world runner docmesh app_value l (record { app = app; app_runtime = l.runtime })).1

  pub managed_lifespan_cleans_up :
      let ended = (managed_lifespan world runner docmesh app_value l app).1.store in
      let resources_closed = (close world l.resources left.app.store).1 in
      NoneHeld l.resources ended
      × ClosedLast left.app_runtime resources_closed.history ended.history
  unfolding managed_lifespan cleanup
  managed_lifespan_cleans_up =
      let closed = (close world l.resources left.app.store).1 in
      let (same, last) = close_app_runtime_lem world runner docmesh left.app_runtime closed in
      (
        subst (λ d. All (λ r. get (resource_name r) d ≡ none) l.resources) (sym same)
            (close_empties world app_value app.store l.resources left.app.store),
        last,
      )
