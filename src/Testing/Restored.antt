-- ===== src/Testing/Restored.antt =====
-- The environment after a test.
use fastapi_core.Prelude.{
  String, string_eq, ◌≡◌, refl, Option, none, some, List, [], ◌∷◌, contains, arith, inl, inr,
  if◌then◌else◌, eq_iff,
}
use fastapi_core.Dict.{Dict, keys, get}
use fastapi_core.Dict.Laws.{get-put, get-remove}
use fastapi_core.Action.{Action}
use fastapi_core.Result.{Result, Result-cases}
use fastapi_core.Config.{AppConfig}
use fastapi_core.Config.Loading.{Process, load_app_config}
use fastapi_core.Testing.{snapshot, assign, assign_all, clear_caches, switch, test_environment}

get-assign :
    (name k : String) (value : Option String) (environ : Dict String String)
    → get k (assign name value environ) ≡ (if string_eq.beq name k then value else get k environ)
unfolding assign
get-assign name k none environ = get-remove name k environ
get-assign name k (some v) environ = get-put name k v environ

-- Assigning what was there before gives every listed name its value back.
get-assign_all-snapshot :
    (k : String) (ns : List String) (before environ : Dict String String)
    → get k (assign_all (snapshot ns before) environ)
      ≡ (if contains k ns then get k before else get k environ)
unfolding assign_all snapshot
get-assign_all-snapshot k [] before environ = refl
get-assign_all-snapshot k (n ∷ ns) before environ = ground (
  arith,
  get-assign_all-snapshot k ns before (assign n (get n before) environ),
  get-assign n k (get n before) environ,
  eq_iff n k,
  eq_iff k n,
)

-- The process as the test leaves it, by whatever way.
abbrev pub left_by : Dict String (Option String) → Action Process (Unit {0}) → Process → Process
left_by overrides test p = (test (switch overrides p)).1

loads_afresh :
    (read : Dict String String → Result AppConfig) (p : Process)
    → p.app_config ≡ none
    → (load_app_config read p).0 ≡ read p.environ
unfolding load_app_config
loads_afresh read p h = elim (Result-cases (read p.environ)) [
  | inl (c, e) ↦ rw (h, e, load_app_config) refl
  | inr (x, e) ↦ rw (h, e, load_app_config) refl
]

-- However a test ends and whatever it does to the environment: at its begin, settings are read afresh
-- from the environment with the overrides; and afterwards each name that was overridden stands for what it
-- stood for before, or for nothing if it did, every other name is as the test left it, and settings
-- are read afresh from that.
pub test_environment-restores :
    (overrides : Dict String (Option String)) (test : Action Process (Unit {0})) (p : Process)
    (k : String) (read : Dict String String → Result AppConfig)
    → let begun = switch overrides p in
      let after = (test_environment overrides test p).1 in
      ((load_app_config read begun).0 ≡ read (assign_all overrides p.environ))
      × (get k after.environ ≡ (
          if contains k (keys overrides)
          then get k p.environ
          else get k (left_by overrides test p).environ))
      × ((load_app_config read after).0 ≡ read after.environ)
      × (after.docmesh_settings ≡ none)
unfolding test_environment switch clear_caches
test_environment-restores overrides test p k read = (
  loads_afresh read (switch overrides p) refl,
  get-assign_all-snapshot k (keys overrides) p.environ (left_by overrides test p).environ,
  loads_afresh read (test_environment overrides test p).1 refl,
  refl,
)
