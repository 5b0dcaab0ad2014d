-- ===== src/Lib.antt =====
-- fastapi_core is a library that makes FastAPI applications: it reads settings, assembles services,
-- creates and closes resources with the application's lifespan, checks readiness, and turns errors
-- into responses. This development models its components and proves what makes them correct.
--
-- How the parts interact. `create_app` (Factory) validates what it is given and makes an application
-- with one readiness registry (Readiness), which the resources (Resources), the runtime (Runtime) and
-- the health router (HealthRouter) share. The lifespan (Lifecycle) assembles or checks the runtime,
-- starts the resources, serves, and closes both. Errors become responses by a mapping table and a
-- renderer (Http) under the policy of the route (Transport). Requests get clients and users by
-- dependencies (Services, Auth).
--
-- The files, and the code that they model:
--   Prelude, Text, Dict      Python's sequences, texts and dictionaries, with their laws
--   Result, Action           exceptions as values; code that changes state and may raise
--   Docmesh, Store           the values of docmesh_py_core that are read; the state of an application,
--                            and the outside world, asked by events in the order of time
--   Invocation               fastapi_core/invocation.py
--   Readiness                fastapi_core/readiness.py: register, unregister, resolve_spec, check
--   Resources                fastapi_core/resources.py: start, close, check_startup, require
--   Config, Runtime          fastapi_core/config.py, fastapi_core/runtime.py
--   Lifecycle                fastapi_core/lifecycle.py: build_lifespan as one action, `managed_lifespan`
--   HealthRouter             fastapi_core/routers/health.py
--   Transport                fastapi_core/transport.py
--   Http                     fastapi_core/http.py: tables, renderers, handlers, both middlewares
--   Services, Auth           fastapi_core/dependencies/services.py, fastapi_core/dependencies/auth.py
--                            and fastapi_core/routers/auth.py
--   Factory                  fastapi_core/factory.py and fastapi_core/modules.py
--   Streaming                fastapi_core/streaming.py
--   Openapi                  the changes of fastapi_core/factory.py to the OpenAPI document
--   Json                     documents, and `json.dumps` down to the characters
--   Logging                  fastapi_core/logging.py
--   FunctionLogging          fastapi_core/function_logging.py
--   Config.Loading           the caches of fastapi_core/config.py and fastapi_core/docmesh_settings.py, and
--                            `get_config` of fastapi_core/dependencies/config.py (`get_settings` is in Services)
--   Resources.Steps          the steps that concurrent tasks take on the store of an application
--   Resources.Calls          `ResourceBinding.call` of fastapi_core/resources.py
--   Testing                  fastapi_core/testing.py: `test_environment`, the contract assertions
--                            (Testing.Contracts, Testing.Modules) and the probe (Testing.Probe)
--   Tests                    the theorems at concrete inputs
-- A function of the code keeps its name, without a leading underscore. Its state is a record that is
-- passed on explicitly; what it asks of objects and callables that it was handed is an `Event`, which a
-- `World` answers as it likes, so that a theorem for every world is one for every outside behaviour.
-- The child modules named for properties hold the proofs.
--
-- Bounds. Every loop of the code runs over a finite sequence and is structural recursion here, over a
-- document as well. The only fuel is that of the decimal digits of a number, `Text.Decimal.decimal`: it
-- is given more than the number itself, and each digit takes at least one off. Durations are integers in
-- a smallest unit; status codes and identities are natural numbers; numbers in a document are integers.
--
-- What is not modelled. FastAPI, Starlette, pydantic, docmesh_py_core and docmesh_config are parameters,
-- or the values that are read of them; what docmesh_py_core documents of running the checks is a
-- hypothesis, `Readiness.Contract.Conduct`. The OpenAPI document that FastAPI generates is a parameter,
-- and so are the answers of a test client, Python's `str.lower`, `str.upper` and `int`, and the equality
-- of modules and policies. Each operation is modelled as it runs alone. Resources.Steps has the pieces
-- between two points at which a coroutine can be suspended: what concurrent tasks do to the store is a
-- sequence of them. A call with a timeout asks for all that it asks, and then the timer says whether it
-- was in time. A log entry of a component is its message. The decorator `log_function_boundary` is left
-- off the functions of the other parts, for the reason that FunctionLogging.Transparent gives.
-- fastapi_core/extensions.py and the `__init__` files only pass names on.
pub mod Prelude
pub mod Text
pub mod Dict
pub mod Result
pub mod Docmesh
pub mod Action
pub mod Store
pub mod Json
pub mod Invocation
pub mod Readiness
pub mod Resources
pub mod Config
pub mod Runtime
pub mod Lifecycle
pub mod HealthRouter
pub mod Transport
pub mod Http
pub mod Services
pub mod Auth
pub mod Factory
pub mod Openapi
pub mod FunctionLogging
pub mod Logging
pub mod Streaming
pub mod Testing
pub mod Tests
