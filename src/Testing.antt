-- ===== src/Testing.antt =====
-- `test_environment` of fastapi_core/testing.py: the process environment and the cached settings for the
-- time of a test.
pub mod Restored
pub mod Contracts
pub mod Modules
pub mod Probe
use fastapi_core.Prelude.{String, string_eq, Bool, false, Option, none, some, List, [], ◌∷◌}
use fastapi_core.Dict.{Dict, keys, get, put, remove}
use fastapi_core.Result.{Result, ok}
use fastapi_core.Config.Loading.{Process}
use fastapi_core.Action.{Action, modify, try_finally, ◌>>◌}

-- `previous`: what each name stands for, with `none` for `_MISSING`.
unfoldable pub snapshot : List String → Dict String String → Dict String (Option String)
snapshot [] environ = []
snapshot (n ∷ ns) environ = (n, get n environ) ∷ snapshot ns environ

unfoldable pub assign : String → Option String → Dict String String → Dict String String
assign name none environ = remove name environ
assign name (some value) environ = put name value environ

-- The loop over the overrides, and the one over what was there before.
unfoldable pub assign_all : Dict String (Option String) → Dict String String → Dict String String
unfolding assign
assign_all [] environ = environ
assign_all ((name, value) ∷ values) environ = assign_all values (assign name value environ)

unfoldable pub clear_caches : Process → Process
clear_caches p = record p { app_config = none; docmesh_settings = none }

-- The values are assigned and the caches emptied.
unfoldable pub switch : Dict String (Option String) → Process → Process
unfolding assign_all clear_caches
switch values p = clear_caches (record p { environ = assign_all values p.environ })

-- The context around a test, which may change the environment and raise.
unfoldable pub test_environment :
    Dict String (Option String) → Action Process (Unit {0}) → Action Process (Unit {0})
unfolding snapshot
test_environment overrides test p =
    let previous = snapshot (keys overrides) p.environ in
    try_finally (modify (switch overrides) >> test) (modify (switch previous)) p
