-- ===== src/Resources/Unregistered.antt =====
-- Which checks closing unregisters: those of the values that it closes, and no others.
use mathlib.Core.List.{reverse}
use mathlib.Core.Path.{subst}
use fastapi_core.Prelude.{
  String, string_eq, Bool, true, false, ◌&&◌, ◌||◌, ◌≡◌, refl, sym, ap, ◌∙◌, Option, none, some,
  List, [], ◌∷◌, map, any, distinct, contains, arith, Option-cases, Bool-cases, inl, inr,
  if◌then◌else◌, ◌==◌, any-reverse, map-reverse, distinct-reverse,
}
use fastapi_core.Dict.{Dict, get, remove}
use fastapi_core.Dict.Laws.{get-remove}
use fastapi_core.Store.{Callable, Value, ReadinessCheckSpec, ReadinessRegistry, Store, World}
use fastapi_core.Readiness.{unregister}
use fastapi_core.Resources.{ManagedResource, resource_name}
use fastapi_core.Resources.Running.{
  is_bound_to, closer, drop_spec, unregister_check, close_by, close_resource, release, close_loop,
  close,
}
use fastapi_core.Resources.Closing.{
  close_by-Calls, release-instances, close_loop-skip, close_loop-release,
}
use fastapi_core.Resources.Starting.{shutdown_state}

abbrev is_check_of : ReadinessCheckSpec → ManagedResource → Option Value → Bool
is_check_of spec r none = false
is_check_of spec r (some value) = is_bound_to r.healthcheck value spec.check

-- Whether the check is, under this name, the one that `start` registered for a value that is held.
abbrev pub belongs : String → Dict String Value → List ManagedResource → ReadinessCheckSpec → Bool
belongs name instances rs spec =
    any (λ r. resource_name r == name && is_check_of spec r (get (resource_name r) instances)) rs

abbrev pub unless :
    (ReadinessCheckSpec → Bool) → Option ReadinessCheckSpec → Option ReadinessCheckSpec
unless p none = none
unless p (some spec) = if p spec then none else some spec

unless-always_false :
    (p : ReadinessCheckSpec → Bool) (o : Option ReadinessCheckSpec)
    → ((spec : ReadinessCheckSpec) → o ≡ some spec → p spec ≡ false)
    → unless p o ≡ o
unless-always_false p none h = refl
unless-always_false p (some spec) h = rw h refl

unless-ext :
    (p q : ReadinessCheckSpec → Bool) (o : Option ReadinessCheckSpec)
    → ((spec : ReadinessCheckSpec) → p spec ≡ q spec)
    → unless p o ≡ unless q o
unless-ext p q none h = refl
unless-ext p q (some spec) h = rw h refl

unless-unless :
    (p q : ReadinessCheckSpec → Bool) (o : Option ReadinessCheckSpec)
    → unless p (unless q o) ≡ unless (λ spec. q spec || p spec) o
unless-unless p q none = refl
unless-unless p q (some spec) = ground arith

-- A name that the list has no resource of may go.
belongs-remove :
    (k name : String) (instances : Dict String Value) (rs : List ManagedResource)
    (spec : ReadinessCheckSpec)
    → contains name (map resource_name rs) ≡ false
    → belongs k (remove name instances) rs spec ≡ belongs k instances rs spec
belongs-remove k name instances [] spec h = refl
belongs-remove k name instances (r ∷ rs) spec h =
    let other : get (resource_name r) (remove name instances) ≡ get (resource_name r) instances =
      get-remove name (resource_name r) instances
      ∙ ground (arith, string_eq.beq_iff name (resource_name r)) in
    rw (other, belongs-remove k name instances rs spec (ground arith)) refl

belongs-absent :
    (k : String) (instances : Dict String Value) (r : ManagedResource) (rs : List ManagedResource)
    (spec : ReadinessCheckSpec)
    → get (resource_name r) instances ≡ none
    → belongs k instances rs spec ≡ belongs k instances (r ∷ rs) spec
belongs-absent k instances r rs spec absent = rw absent (ground arith)

get-drop_spec :
    (k name : String) (h : Option Callable) (v : Value) (s : Store) (o : Option ReadinessCheckSpec)
    → get name s.readiness.specs ≡ o
    → get k (drop_spec name h v o s).readiness.specs
      ≡ unless (λ spec. name == k && is_bound_to h v spec.check) (get k s.readiness.specs)
unfolding drop_spec unregister
get-drop_spec k name h v s none e = sym (
    unless-always_false _ (get k s.readiness.specs)
      (λ spec found. ground (arith, string_eq.beq_iff name k)))
get-drop_spec k name h v s (some spec) e = elim (Bool-cases (is_bound_to h v spec.check)) [
  | inl bound ↦ elim (Bool-cases (name == k)) [
    | inl here ↦
        let found : get k s.readiness.specs ≡ some spec =
          subst (λ n. get n s.readiness.specs ≡ some spec) ((string_eq.beq_iff name k).0 here) e in
        rw (bound, get-remove, here, found, bound) refl
    | inr there ↦
        rw (bound, get-remove, there)
          (sym (unless-always_false _ (get k s.readiness.specs) (λ spec' found. refl)))
  ]
  | inr foreign ↦ rw foreign (
      sym (
        unless-always_false _ (get k s.readiness.specs)
          (λ spec' found. ground (arith, string_eq.beq_iff name k))))
]

module _ (world : World) where
  get-release :
      (k : String) (r : ManagedResource) (v : Value) (s : Store)
      → get k (release world r v s).1.readiness.specs
        ≡ unless
            (λ spec. resource_name r == k && is_bound_to r.healthcheck v spec.check)
            (get k s.readiness.specs)
  unfolding release close_resource unregister_check
  get-release k r v s =
      let held = record s { instances = remove (resource_name r) s.instances } in
      let s1 = (close_by world (closer r v) v held).1 in
      get-drop_spec k (resource_name r) r.healthcheck v s1
        (get (resource_name r) s1.readiness.specs) refl
      ∙ ap (λ (x : ReadinessRegistry). unless _ (get k x.specs))
          (close_by-Calls world (closer r v) v held).readiness

  get-close_loop :
      (k : String) (rs : List ManagedResource) (s : Store)
      → distinct (map resource_name rs) ≡ true
      → get k (close_loop world rs s).1.readiness.specs
        ≡ unless (belongs k s.instances rs) (get k s.readiness.specs)
  unfolding close_loop
  get-close_loop k [] s unique =
      sym (unless-always_false _ (get k s.readiness.specs) (λ spec found. refl))
  get-close_loop k (r ∷ rs) s unique = elim (Option-cases (get (resource_name r) s.instances)) [
    | inl absent ↦
        ap (λ (t : Store). get k t.readiness.specs) (close_loop-skip world r rs s absent)
        ∙ get-close_loop k rs s (ground arith)
        ∙ unless-ext (belongs k s.instances rs) (belongs k s.instances (r ∷ rs))
            (get k s.readiness.specs) (λ spec. belongs-absent k s.instances r rs spec absent)
    | inr (v, held) ↦
        ap (λ (t : Store). get k t.readiness.specs) (close_loop-release world r v rs s held)
        ∙ get-close_loop k rs (release world r v s).1 (ground arith)
        ∙ unless-ext (belongs k (release world r v s).1.instances rs) (belongs k s.instances rs) _
            (λ spec.
              rw release-instances
                (belongs-remove k (resource_name r) s.instances rs spec (ground arith)))
        ∙ ap (unless (belongs k s.instances rs)) (get-release k r v s)
        ∙ unless-unless (belongs k s.instances rs)
            (λ spec. resource_name r == k && is_bound_to r.healthcheck v spec.check)
            (get k s.readiness.specs)
        ∙ unless-ext _ _ (get k s.readiness.specs) (λ spec. rw held refl)
  ]

  pub close_unregisters :
      (name : String) (rs : List ManagedResource) (s : Store)
      → distinct (map resource_name rs) ≡ true
      → get name (close world rs s).1.readiness.specs
        ≡ unless (belongs name s.instances rs) (get name s.readiness.specs)
  unfolding close
  close_unregisters name rs s unique = rw shutdown_state (
      get-close_loop name (reverse rs) s
        (rw map-reverse (distinct-reverse (map resource_name rs) ∙ unique))
      ∙ unless-ext (belongs name s.instances (reverse rs)) (belongs name s.instances rs)
          (get name s.readiness.specs) (λ spec. any-reverse _ rs))
