-- ===== src/Docmesh.antt =====
-- The values of docmesh_py_core and docmesh_config that the program reads and builds, with the
-- fields that it uses. Their own methods are not here: what the program calls is a parameter.
use fastapi_core.Prelude.{ℕ, String, Bool, Option, List}

pub record ServiceHealthStatus : Type 0 where
  pub service : String
  pub ok : Bool
  pub latency_ms : Option ℕ
  pub required : Bool
  pub error : Option String
  pub error_type : Option String

pub record HealthCheckResult : Type 0 where
  pub ok : Bool
  pub services : List ServiceHealthStatus
