-- ===== src/Http/Handlers.antt =====
-- The exception handlers of fastapi_core/http.py, and how they are installed. A renderer and a mapper
-- are callables; the parameters say what they answer. docmesh_py_core's `mask_sensitive_value` is a
-- parameter.
use fastapi_core.Prelude.{
  ℕ, String, Option, none, some, get_or, List, [], ◌∷◌, contains, add, string_eq, nat_eq, pair_eq,
  or_else, if◌then◌else◌,
}
use fastapi_core.Text.{◌<>◌, truthy_text}
use fastapi_core.Dict.{Dict, get, put}
use fastapi_core.Result.{Result, ok, err, value_error, raise_if, ◌>>=◌, ◌>>◌}
use fastapi_core.Store.{Event, logged}
use fastapi_core.Transport.{TransportPolicy, effective_validation_status}
use fastapi_core.Http.{ErrorMapping, plain_mapping, ExceptionMappingTable, Classes, resolve}
use fastapi_core.Http.Render.{Python, Request, Response, problem_renderer}

-- The part of `app.state` that the handlers read, with the application's exception handlers.
pub record HttpApp : Type 0 where
  -- `None` stands for the standard renderer
  pub error_renderer : Option ℕ
  pub error_mapper_types : List ℕ
  pub error_mapping_table : Option ExceptionMappingTable
  pub transport_policies : Dict (String × String) TransportPolicy
  pub exception_handlers : Dict ℕ ℕ

-- `add_exception_handler` of the three handlers below is left to the framework.
unfoldable pub install_problem_handlers :
    Option ℕ → Option ExceptionMappingTable → HttpApp → HttpApp
install_problem_handlers renderer table app = record app {
  error_renderer = renderer;
  error_mapper_types = [];
  error_mapping_table = table;
}

-- What the callables that the handlers are given answer, and `str.upper`.
pub record Callables : Type 0 where
  pub render : ℕ → Request → ErrorMapping → Result Response
  pub map_error : ℕ → Request → ℕ → Result ErrorMapping
  pub mask_sensitive_value : String → Option String
  pub upper : String → String

abbrev safe_error_details : List String
safe_error_details = "Invalid token" ∷ []

module _ (classes : Classes) (python : Python) (callables : Callables) where
  unfoldable pub mask_problem_detail : String → String
  mask_problem_detail detail =
      if contains detail safe_error_details
      then detail
      else get_or (truthy_text (callables.mask_sensitive_value detail)) detail

  unfoldable pub route_policy : HttpApp → Request → Option TransportPolicy
  route_policy app request = elim request.route [
    | none ↦ none
    | some path ↦ get (callables.upper request.method, path) app.transport_policies
  ]

  abbrev policy_renderer : Option TransportPolicy → Option ℕ
  policy_renderer none = none
  policy_renderer (some policy) = policy.error_renderer

  abbrev render_with : Option ℕ → Request → ErrorMapping → Result Response
  render_with none request m = ok (problem_renderer python request m)
  render_with (some r) request m = callables.render r request m

  -- The policy's renderer, else the application's.
  unfoldable pub render_error : HttpApp → Request → ErrorMapping → Result Response
  render_error app request m =
      render_with (or_else (policy_renderer (route_policy app request)) app.error_renderer) request
        (record m { detail = mask_problem_detail m.detail })

  unfoldable pub http_exception_handler :
      HttpApp → Request → ℕ → String → Option (Dict String String) → Result Response
  unfolding render_error
  http_exception_handler app request status detail headers =
      render_error app request (plain_mapping status detail headers)

  abbrev validation_status_of : Option TransportPolicy → ℕ
  validation_status_of none = 422
  validation_status_of (some policy) = effective_validation_status policy

  unfoldable pub validation_exception_handler : HttpApp → Request → Result Response
  validation_exception_handler app request = render_error app request (
      plain_mapping (validation_status_of (route_policy app request)) "Request validation failed"
        none)

  abbrev resolve_table : Option ExceptionMappingTable → ℕ → Result (Option ErrorMapping)
  resolve_table none c = ok none
  resolve_table (some table) c = resolve classes table c

  abbrev internal_error : ErrorMapping
  internal_error = plain_mapping 500 "Internal Server Error" none

  abbrev render_mapped :
      HttpApp → Request → List Event → Result (Option ErrorMapping) → Result Response × List Event
  render_mapped app request history (err e) = (err e, history)
  render_mapped app request history (ok (some m)) = (render_error app request m, history)
  render_mapped app request history (ok none) =
      (render_error app request internal_error, logged "unhandled_request_error" ∷ history)

  -- For an exception of class `c`.
  unfoldable pub unhandled_exception_handler :
      HttpApp → Request → ℕ → List Event → Result Response × List Event
  unfolding render_error
  unhandled_exception_handler app request c history =
      render_mapped app request history (resolve_table app.error_mapping_table c)

  -- The handler that `register_error_mapper` installs.
  unfoldable pub mapped_exception_handler : ℕ → HttpApp → Request → ℕ → Result Response
  unfolding render_error
  mapped_exception_handler mapper app request c = do
    mapping ← callables.map_error mapper request c
    render_error app request mapping

module _ (classes : Classes) where
  unfoldable pub register_error_mapper : ℕ → ℕ → HttpApp → Result HttpApp
  register_error_mapper c mapper app =
      raise_if (contains c app.error_mapper_types)
        (value_error ("error mapper for '" <> classes.name c <> "' is already registered"))
      >> ok (record app {
        error_mapper_types = add c app.error_mapper_types;
        exception_handlers = put c mapper app.exception_handlers;
      })
