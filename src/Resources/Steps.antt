-- ===== src/Resources/Steps.antt =====
-- The steps that tasks take on the store that they share: what happens between two points at which a
-- coroutine of fastapi_core/resources.py, fastapi_core/readiness.py or fastapi_core/invocation.py can be
-- suspended, and the calls by which other code registers and unregisters checks. What concurrent tasks
-- do is a sequence of such steps, in the order in which they are taken.
pub mod Consistent
pub mod Stepwise
pub mod Interleaved
use fastapi_core.Prelude.{
  String, string_eq, Bool, true, List, [], ◌∷◌, ◌++◌, map, all, contains, ◌≡◌, refl, ◌∙◌,
}
use fastapi_core.Dict.{remove}
use fastapi_core.Action.{◌>>◌}
use fastapi_core.Store.{Value, Event, ReadinessCheckSpec, Store, World, perform}
use fastapi_core.Readiness.{unregister}
use fastapi_core.Resources.{ManagedResource, resource_name}
use fastapi_core.Resources.Running.{hold, registered, register_for, unregister_check}

pub data Step : Type 0 where
  -- something is asked of the outside, or written to a log
  asks : Event → Step
  registers : ReadinessCheckSpec → Step
  unregisters : String → Step
  -- `start` keeps a value that it was given, and registers its check
  holds : ManagedResource → Value → Step
  -- `close` takes a value out, and at the end its check
  pops : ManagedResource → Step
  unregisters_own : ManagedResource → Value → Step

module _ (world : World) where
  -- The store after a step; one that raises leaves what it had written.
  unfoldable pub take : Step → Store → Store
  unfolding perform
  take (asks event) s = (perform world event s).1
  take (registers spec) s = (registered spec s).1
  take (unregisters name) s = record s { readiness = unregister name s.readiness }
  take (holds r value) s =
      ((hold (resource_name r) value >> register_for r value r.healthcheck) s).1
  take (pops r) s = record s { instances = remove (resource_name r) s.instances }
  take (unregisters_own r value) s = unregister_check r value s

  unfoldable pub take_all : List Step → Store → Store
  take_all [] s = s
  take_all (step ∷ steps) s = take_all steps (take step s)

-- Whether a step holds a value only under one of the names.
abbrev pub is_for : List String → Step → Bool
is_for names (holds r value) = contains (resource_name r) names
is_for names _ = true

module _ (world : World) (names : List String) where
  -- One store comes from another by steps.
  pub record Reaches (s s' : Store) : Type 0 where
    pub steps : List Step
    pub own : all (is_for names) steps ≡ true
    pub reached : s' ≡ take_all world steps s
