-- ===== src/Resources/Held.antt =====
-- What is created and held between `start` and `close`, and the calls of a history.
use fastapi_core.Prelude.{
  String, string_eq, Bool, true, false, ◌≡◌, Option, none, some, List, [], ◌∷◌, ◌++◌, All, filter,
}
use fastapi_core.Dict.{Dict, get}
use fastapi_core.Store.{Callable, Value, Event, call, ReadinessCheckSpec, Store}
use fastapi_core.Resources.{ManagedResource, resource_name}
use fastapi_core.Resources.Running.{check_spec, closer}

abbrev is_call : Event → Bool
is_call (call f args) = true
is_call _ = false

-- The calls of a history, newest first as it is.
abbrev pub calls : List Event → List Event
calls h = filter is_call h

abbrev pub call_of : Option (Callable × List Value) → List Event
call_of none = []
call_of (some (method, args)) = call method args ∷ []

-- The one call that closes a value, if anything does.
abbrev pub closing_call : ManagedResource → Value → List Event
closing_call r value = call_of (closer r value)

-- What was created, newest first.
abbrev pub Started : Type 0
Started = List (ManagedResource × Value)

abbrev pub instances_of : Dict String Value → Started → Dict String Value
instances_of base [] = base
instances_of base ((r, v) ∷ st) = instances_of base st ++ (resource_name r, v) ∷ []

abbrev pub entry_of : ManagedResource → Value → Option Callable → Dict String ReadinessCheckSpec
entry_of r v none = []
entry_of r v (some h) = (resource_name r, check_spec r h v) ∷ []

abbrev pub specs_of : Dict String ReadinessCheckSpec → Started → Dict String ReadinessCheckSpec
specs_of base [] = base
specs_of base ((r, v) ∷ st) = specs_of base st ++ entry_of r v r.healthcheck

-- The store `s` is the store `s0` with what was created added.
pub record Holds (s0 : Store) (st : Started) (s : Store) : Type 0 where
  pub instances : s.instances ≡ instances_of s0.instances st
  pub specs : s.readiness.specs ≡ specs_of s0.readiness.specs st
  pub default : s.readiness.default_timeout_seconds ≡ s0.readiness.default_timeout_seconds

-- Each name was new when its resource was created.
abbrev pub Fresh : Store → Started → Type 0
Fresh s0 [] = Unit
Fresh s0 ((r, v) ∷ st) =
    (get (resource_name r) (instances_of s0.instances st) ≡ none)
    × (get (resource_name r) (specs_of s0.readiness.specs st) ≡ none)
    × Fresh s0 st

-- No resource of the list is held.
abbrev pub NoneHeld : List ManagedResource → Store → Type 0
NoneHeld rs s = All (λ r. get (resource_name r) s.instances ≡ none) rs

-- A call changes nothing but the history, to which it adds one call.
pub record Calls (event : List Event) (s s' : Store) : Type 0 where
  pub instances : s'.instances ≡ s.instances
  pub readiness : s'.readiness ≡ s.readiness
  pub history : calls s'.history ≡ event ++ calls s.history

-- The closing calls, the last made first.
abbrev pub closings : Started → List Event
closings [] = []
closings ((r, v) ∷ st) = closings st ++ closing_call r v
