-- ===== src/Tests/Managed.antt =====
-- Managed resources, the runtime, the lifespan and a streaming response.
use fastapi_core.Prelude.{
  String, string_eq, true, false, ◌≡◌, refl, ◌↔◌, ◌&&◌, Option, none, some, List, [], ◌∷◌, ◌++◌,
  map, all, distinct, All,
}
use fastapi_core.Prelude.Int.{pos}
use fastapi_core.Text.{is_blank}
use fastapi_core.Dict.{get, put}
use fastapi_core.Result.{ok, err, runtime_error}
use fastapi_core.Action.{Action}
use fastapi_core.Store.{logged, Store}
use fastapi_core.Resources.{ManagedResource, text, validate, reserved_resource_names, resource_name}
use fastapi_core.Resources.Validation.{is_acceptable, validate_iff}
use fastapi_core.Resources.Running.{
  start, start_loop, close, create, register_for, close_loop, release, close_resource, close_by,
  closer,
}
use fastapi_core.Invocation.{invoke_resource}
use fastapi_core.Readiness.{register}
use fastapi_core.Resources.Held.{Started, NoneHeld, calls, closings, Holds}
use fastapi_core.Resources.Progress.{IsReady}
use fastapi_core.Resources.Starting.{
  Ordered, SameDicts, start_rolls_back, start_creates, close-start,
}
use fastapi_core.Runtime.{Client, ServiceRuntime, App}
use fastapi_core.Runtime.Configuring.{configure_service_runtime}
use fastapi_core.Runtime.Atomic.{AllOrNothing, configure_service_runtime_atomic}
use fastapi_core.Config.{default_config}
use fastapi_core.Readiness.Run.{Runner}
use fastapi_core.Lifecycle.{Assembler, Lifespan, managed_lifespan}
use fastapi_core.Lifecycle.Cleanup.{ClosedLast, left, managed_lifespan_cleans_up}
use fastapi_core.Streaming.{
  ManagedStreamingResponse, State, close_callable, close_once, call_response,
}
use fastapi_core.Streaming.Once.{close_event, Keeps, call_response-once, call_response-Keeps}
use fastapi_core.Tests.Values.{
  opener, probe, pool, app_value, calm, broken, stuck, down, empty_store,
}

abbrev pub resource : String → ManagedResource
resource name = record {
  name = text name;
  options = record {
    factory = opener;
    healthcheck = some probe;
    close = none;
    required = true;
    readiness_timeout_seconds = some (pos 2);
    redact_errors = true;
    health_result_adapter = none;
  };
}

abbrev pub two_resources : List ManagedResource
two_resources = resource "pool" ∷ resource "cache" ∷ []

validate_iff_example : (validate reserved_resource_names [] two_resources ≡ ok tt) ↔ (
    (all (is_acceptable reserved_resource_names) two_resources
      && distinct (map resource_name two_resources))
    ≡ true)
validate_iff_example = validate_iff reserved_resource_names two_resources

resource-IsReady : (name : String) → is_blank name ≡ false → IsReady empty_store (resource name)
unfolding get
resource-IsReady name named = record {
  not_held = refl;
  not_checked = refl;
  named = named;
  timely = refl;
}

two_resources-IsReady : All (IsReady empty_store) two_resources
unfolding is_blank
two_resources-IsReady = (resource-IsReady "pool" refl, (resource-IsReady "cache" refl, tt))

fails : (start broken app_value two_resources empty_store).0 ≡ err (runtime_error "no connection")
unfolding start start_loop create invoke_resource register_for register is_blank get put close
    close_loop release close_resource close_by closer
fails = refl

start_rolls_back_example :
    let s = (start broken app_value two_resources empty_store).1 in
    SameDicts s empty_store
    × ((created : Started) × (rest : List ManagedResource) × Ordered two_resources created rest
        × (calls s.history
            ≡ closings created
              ++ calls (start_loop broken app_value two_resources empty_store).1.history))
start_rolls_back_example =
    start_rolls_back broken app_value empty_store two_resources two_resources-IsReady refl
      (runtime_error "no connection") fails

abbrev pub started : Store
started = (start calm app_value two_resources empty_store).1

starts : (start calm app_value two_resources empty_store).0 ≡ ok tt
unfolding start start_loop create invoke_resource register_for register is_blank get put
starts = refl

start_creates_example :
    (created : Started) × Ordered two_resources created [] × Holds empty_store created started
start_creates_example =
    start_creates calm app_value empty_store two_resources two_resources-IsReady refl starts

-- A store in which more was logged since.
abbrev later : Store
later = record started { history = logged "served" ∷ started.history }

close-start_example :
    let s = (close calm two_resources later).1 in
    SameDicts s empty_store
    × ((created : Started) × Ordered two_resources created []
        × (calls s.history ≡ closings created ++ calls later.history))
close-start_example =
    close-start calm app_value empty_store two_resources two_resources-IsReady refl later starts
      (refl, refl)

abbrev no_clients : String → Option Client
no_clients name = none

abbrev runtime : ServiceRuntime
runtime = record {
  ident = 4;
  required_services = "postgres" ∷ [];
  selected_services = "postgres" ∷ [];
  checks = ("postgres", probe) ∷ [];
  client = no_clients;
}

abbrev pub app : App
app = record {
  store = empty_store;
  service_runtime = none;
  startup_healthcheck_result = none;
  auth_provider = none;
}

configure_service_runtime_atomic_example :
    AllOrNothing runtime app (configure_service_runtime runtime app)
unfolding is_blank
configure_service_runtime_atomic_example =
    configure_service_runtime_atomic runtime app (refl, (refl, tt))

abbrev pub docmesh : Assembler
docmesh = record { assemble = λ history plan. ok runtime; empty = runtime }

abbrev no_runner : Runner
no_runner checks required parallel overall f = (ok (record { ok = true; services = [] }), f)

abbrev pub lifespan : Lifespan
lifespan = record {
  has_lifespan = true;
  config = default_config;
  runtime = some runtime;
  runtime_plan = none;
  resources = two_resources;
  require_auth_provider = false;
}

managed_lifespan_cleans_up_example :
    let ended = (managed_lifespan stuck no_runner docmesh app_value lifespan app).1.store in
    let frame = left stuck no_runner docmesh app_value lifespan app in
    let resources_closed = (close stuck two_resources frame.app.store).1 in
    NoneHeld two_resources ended
    × ClosedLast frame.app_runtime resources_closed.history ended.history
managed_lifespan_cleans_up_example =
    managed_lifespan_cleans_up stuck no_runner docmesh app_value lifespan app

abbrev response : ManagedStreamingResponse
response = record { resource = some pool; resource_close = none }

-- Sending fails when the client goes away.
abbrev send : Action Store (Unit {0})
send s = (err (runtime_error "disconnected"), s)

abbrev open_state : State
open_state = record { store = empty_store; closed = false }

call_response-once_example :
    let s' = (call_response down response send true open_state).1 in
    (calls s'.store.history ≡ close_event (close_callable response) ++ [])
    × (close_once down response s' ≡ (ok tt, s'))
call_response-once_example = call_response-once down response send true open_state refl

call_response-Keeps_example :
    Keeps (runtime_error "disconnected") (call_response down response send true open_state).0
call_response-Keeps_example =
    call_response-Keeps down response send true open_state (runtime_error "disconnected") refl
