-- ===== src/Resources/Steps/Consistent.antt =====
-- What every step keeps.
use fastapi_core.Prelude.{
  String, string_eq, true, List, [], ◌∷◌, ◌++◌, all, All, distinct, subset, ◌≡◌, refl, sym, ap, ◌∙◌,
  arith, Option, none, some, inl, inr, append_assoc, Bool-cases,
}
use fastapi_core.Dict.{Dict, keys, get, put, remove}
use fastapi_core.Dict.Update.{distinct-put, distinct-remove, subset-put, subset-remove}
use fastapi_core.Result.{Result-cases}
use fastapi_core.Store.{
  Callable, Value, Event, ReadinessCheckSpec, ReadinessRegistry, Store, World, perform,
}
use fastapi_core.Readiness.{register, unregister}
use fastapi_core.Readiness.Registry.{IsValid, IsEntry, register-IsValid}
use fastapi_core.Resources.{ManagedResource, resource_name}
use fastapi_core.Resources.Running.{
  is_bound_to, check_spec, registered, register_for, drop_spec, unregister_check,
}
use fastapi_core.Resources.Steps.{
  Step, asks, registers, unregisters, holds, pops, unregisters_own, take, take_all, is_for,
}

All-remove :
    (k : String) (d : Dict String ReadinessCheckSpec) → All IsEntry d → All IsEntry (remove k d)
unfolding remove
All-remove k [] h = tt
All-remove k ((i, w) ∷ d) (here, later) = elim (Bool-cases (string_eq.beq i k)) [
  | inl out ↦ rw out (All-remove k d later)
  | inr stays ↦ rw stays (here, All-remove k d later)
]

unregister-IsValid :
    (name : String) (r : ReadinessRegistry) → IsValid r → IsValid (unregister name r)
unfolding unregister
unregister-IsValid name r v = record {
  unique = distinct-remove name r.specs v.unique;
  entries = All-remove name r.specs v.entries;
}

-- The registry is valid, and each value is held once, under one of the names.
pub record IsConsistent (names : List String) (s : Store) : Type 0 where
  pub registry : IsValid s.readiness
  pub unique : distinct (keys s.instances) ≡ true
  pub known : subset (keys s.instances) names ≡ true

-- The history goes on, and the default timeout is the same.
pub record Follows (s s' : Store) : Type 0 where
  pub new : List Event
  pub history : s'.history ≡ new ++ s.history
  pub default : s'.readiness.default_timeout_seconds ≡ s.readiness.default_timeout_seconds

registered-Follows : (spec : ReadinessCheckSpec) (s : Store) → Follows s (registered spec s).1
unfolding register
registered-Follows spec s = record { new = []; history = ground arith; default = ground arith }

drop_spec-Follows :
    (name : String) (h : Option Callable) (v : Value) (s : Store) (o : Option ReadinessCheckSpec)
    → Follows s (drop_spec name h v o s)
unfolding drop_spec unregister
drop_spec-Follows name h v s none = record { new = []; history = refl; default = refl }
drop_spec-Follows name h v s (some spec) = record {
  new = [];
  history = ground arith;
  default = ground arith;
}

module _ (names : List String) where
  registered-IsConsistent :
      (spec : ReadinessCheckSpec) (s : Store)
      → IsConsistent names s
      → IsConsistent names (registered spec s).1
  registered-IsConsistent spec s c = elim (Result-cases (register spec s.readiness)) [
    | inl (r, done) ↦ rw done (record {
      registry = register-IsValid spec s.readiness r c.registry done;
      unique = c.unique;
      known = c.known;
    })
    | inr (e, failed) ↦ rw failed c
  ]

  register_for-IsConsistent :
      (r : ManagedResource) (v : Value) (h : Option Callable) (s : Store)
      → IsConsistent names s
      → IsConsistent names (register_for r v h s).1
  unfolding register_for
  register_for-IsConsistent r v none s c = c
  register_for-IsConsistent r v (some h) s c = registered-IsConsistent (check_spec r h v) s c

  drop_spec-IsConsistent :
      (name : String) (h : Option Callable) (v : Value) (s : Store) (o : Option ReadinessCheckSpec)
      → IsConsistent names s
      → IsConsistent names (drop_spec name h v o s)
  unfolding drop_spec
  drop_spec-IsConsistent name h v s none c = c
  drop_spec-IsConsistent name h v s (some spec) c = elim (Bool-cases (is_bound_to h v spec.check)) [
    | inl own ↦ rw own (record {
      registry = unregister-IsValid name s.readiness c.registry;
      unique = c.unique;
      known = c.known;
    })
    | inr foreign ↦ rw foreign c
  ]

  module _ (world : World) where
    take-IsConsistent :
        (step : Step) (s : Store)
        → is_for names step ≡ true
        → IsConsistent names s
        → IsConsistent names (take world step s)
    unfolding take perform unregister_check
    take-IsConsistent (asks event) s own c = record {
      registry = c.registry;
      unique = c.unique;
      known = c.known;
    }
    take-IsConsistent (registers spec) s own c = registered-IsConsistent spec s c
    take-IsConsistent (unregisters name) s own c = record {
      registry = unregister-IsValid name s.readiness c.registry;
      unique = c.unique;
      known = c.known;
    }
    take-IsConsistent (holds r v) s own c =
        register_for-IsConsistent r v r.healthcheck
          (record s { instances = put (resource_name r) v s.instances })
          (record {
            registry = c.registry;
            unique = distinct-put (resource_name r) v s.instances c.unique;
            known = subset-put names (resource_name r) v s.instances own c.known;
          })
    take-IsConsistent (pops r) s own c = record {
      registry = c.registry;
      unique = distinct-remove (resource_name r) s.instances c.unique;
      known = subset-remove names (resource_name r) s.instances c.known;
    }
    take-IsConsistent (unregisters_own r v) s own c =
        drop_spec-IsConsistent (resource_name r) r.healthcheck v s
          (get (resource_name r) s.readiness.specs) c

    take-Follows : (step : Step) (s : Store) → Follows s (take world step s)
    unfolding take perform unregister_check unregister register_for
    take-Follows (asks event) s = record { new = event ∷ []; history = refl; default = refl }
    take-Follows (registers spec) s = registered-Follows spec s
    take-Follows (unregisters name) s = record { new = []; history = refl; default = refl }
    take-Follows (holds r v) s = register_for-Follows r.healthcheck
      where
        register_for-Follows :
            (h : Option Callable)
            → Follows s
                (register_for r v h
                  (record s { instances = put (resource_name r) v s.instances })).1
        register_for-Follows none = record { new = []; history = refl; default = refl }
        register_for-Follows (some h) =
            let f =
              registered-Follows (check_spec r h v)
                (record s { instances = put (resource_name r) v s.instances }) in
            record { new = f.new; history = f.history; default = f.default }
    take-Follows (pops r) s = record { new = []; history = refl; default = refl }
    take-Follows (unregisters_own r v) s =
        drop_spec-Follows (resource_name r) r.healthcheck v s
          (get (resource_name r) s.readiness.specs)

    pub take_all-IsConsistent :
        (steps : List Step) (s : Store)
        → all (is_for names) steps ≡ true
        → IsConsistent names s
        → IsConsistent names (take_all world steps s) × Follows s (take_all world steps s)
    unfolding take_all
    take_all-IsConsistent [] s own c = (c, record { new = []; history = refl; default = refl })
    take_all-IsConsistent (step ∷ steps) s own c =
        let first = take-Follows step s in
        let (c', rest) =
          take_all-IsConsistent steps (take world step s) (ground arith)
            (take-IsConsistent step s (ground arith) c) in
        (
          c',
          record {
            new = rest.new ++ first.new;
            history =
                rest.history
                ∙ ap (λ h. rest.new ++ h) first.history
                ∙ sym (append_assoc rest.new first.new s.history);
            default = rest.default ∙ first.default;
          },
        )
