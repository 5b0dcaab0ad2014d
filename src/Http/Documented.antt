-- ===== src/Http/Documented.antt =====
-- What a failed validation and an unknown exception answer.
use fastapi_core.Prelude.{
  ◌∙◌, ℕ, true, ◌≡◌, refl, none, some, List, ◌∷◌, nat_beq_iff, nat_eq, arith,
}
use fastapi_core.Dict.{has}
use fastapi_core.Result.{ok}
use fastapi_core.Store.{Event, logged}
use fastapi_core.Transport.{TransportPolicy, effective_validation_status, response_definitions}
use fastapi_core.Transport.Responses.{get-response_definitions}
use fastapi_core.Http.{Classes, ExceptionMappingTable, resolve}
use fastapi_core.Http.{apply_value}
use fastapi_core.Http.Table.{is_first, resolve_fallback}
use fastapi_core.Http.Render.{Python, Request, Response, problem_renderer, problem_response}
use fastapi_core.Http.Handlers.{
  HttpApp, Callables, route_policy, render_error, validation_exception_handler,
  unhandled_exception_handler,
}

-- The validation status is among the responses that the policy documents.
documented :
    (p : TransportPolicy) → has (effective_validation_status p) (response_definitions p) ≡ true
documented p = ground (
  arith,
  get-response_definitions p (effective_validation_status p),
  nat_beq_iff (effective_validation_status p) (effective_validation_status p),
)

module _ (classes : Classes) (python : Python) (callables : Callables) where
  pub validation_exception_handler-documented :
      (app : HttpApp) (request : Request) (policy : TransportPolicy)
      → route_policy classes python callables app request ≡ some policy
      → policy.error_renderer ≡ none
      → app.error_renderer ≡ none
      → (response : Response) × (validation_exception_handler classes python callables app request
          ≡ ok response)
        × (response.status_code ≡ effective_validation_status policy)
        × (has response.status_code (response_definitions policy) ≡ true)
  unfolding validation_exception_handler render_error problem_renderer problem_response
  validation_exception_handler-documented app request policy routed plain standard =
      rw (routed, plain, standard)
        (_, refl, refl, documented (record policy { error_renderer = none }))

  unmapped :
      (table : ExceptionMappingTable) (c : ℕ)
      → table.fallback ≡ none
      → is_first classes (classes.mro c) table.mappings ≡ true
      → resolve classes table c ≡ ok none
  unfolding apply_value
  unmapped table c plain first = resolve_fallback classes table c first ∙ rw plain refl

  -- Where the table has no fallback and maps no class of either of two exceptions, both are logged
  -- and answered alike: the answer shows nothing of the exception.
  pub unhandled_exception_handler-uniform :
      (app : HttpApp) (request : Request) (table : ExceptionMappingTable) (c c' : ℕ)
      (history : List Event)
      → app.error_mapping_table ≡ some table
      → table.fallback ≡ none
      → is_first classes (classes.mro c) table.mappings ≡ true
      → is_first classes (classes.mro c') table.mappings ≡ true
      → (unhandled_exception_handler classes python callables app request c history
          ≡ unhandled_exception_handler classes python callables app request c' history)
        × ((unhandled_exception_handler classes python callables app request c history).1
            ≡ logged "unhandled_request_error" ∷ history)
  unfolding unhandled_exception_handler
  unhandled_exception_handler-uniform app request table c c' history given plain first first' =
      let h = unmapped table c plain first in
      let h' = unmapped table c' plain first' in rw given (rw (h, h') (refl, refl))
