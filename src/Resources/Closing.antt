-- ===== src/Resources/Closing.antt =====
-- What closing does: each held value is closed by one call, the last created first, and what
-- `start` put into the store is taken out again.
use mathlib.Core.List.{reverse, reverse_aux, reverse_aux-eq, reverse_aux-reverse_aux-nil}
use mathlib.Core.Path.{subst}
use fastapi_core.Prelude.{
  String, string_eq, ◌≡◌, refl, sym, ap, ◌∙◌, Option, none, some, List, [], ◌∷◌, ◌++◌, map, All,
  All-reverse, arith, Option-cases, inl, inr, append-nil, append_assoc,
}
use fastapi_core.Dict.{Dict, get, remove}
use fastapi_core.Dict.Laws.{get-remove, remove-append_self, get-append_self}
use fastapi_core.Store.{Callable, Value, call, ReadinessCheckSpec, ReadinessRegistry, Store, World}
use fastapi_core.Invocation.{invoke_resource}
use fastapi_core.Readiness.{unregister}
use fastapi_core.Resources.{ManagedResource, resource_name}
use fastapi_core.Resources.Running.{
  check_spec, closer, drop_spec, unregister_check, close_by, close_resource, release, close_loop,
}
use fastapi_core.Resources.Held.{
  calls, call_of, closing_call, Started, instances_of, entry_of, specs_of, Holds, Fresh, NoneHeld,
  Calls, closings,
}

module _ (name : String) (v : Value) (s : Store) where
  pub drop_spec_rest :
      (h : Option Callable) (o : Option ReadinessCheckSpec)
      → ((drop_spec name h v o s).history ≡ s.history)
        × ((drop_spec name h v o s).instances ≡ s.instances)
        × ((drop_spec name h v o s).readiness.default_timeout_seconds
            ≡ s.readiness.default_timeout_seconds)
  unfolding drop_spec unregister
  drop_spec_rest h none = (refl, refl, refl)
  drop_spec_rest h (some spec) = ground arith

  drop_spec-none : (o : Option ReadinessCheckSpec) → drop_spec name none v o s ≡ s
  unfolding drop_spec
  drop_spec-none none = refl
  drop_spec-none (some spec) = refl

-- The spec that `start` put last is taken out, and no other.
drop_spec_last :
    (r : ManagedResource) (v : Value) (d : Dict String ReadinessCheckSpec) (s : Store)
    (o : Option Callable)
    → get (resource_name r) d ≡ none
    → s.readiness.specs ≡ d ++ entry_of r v o
    → (drop_spec (resource_name r) o v (get (resource_name r) s.readiness.specs) s).readiness.specs
      ≡ d
unfolding drop_spec unregister
drop_spec_last r v d s none new e = rw drop_spec-none (e ∙ append-nil d)
drop_spec_last r v d s (some h) new e =
    let name = resource_name r in
    let found : get name s.readiness.specs ≡ some (check_spec r h v) =
      rw e (get-append_self name (check_spec r h v) d new) in
    rw found (ground (arith, remove-append_self name (check_spec r h v) d))

module _ (world : World) where
  pub invoke_resource-Calls :
      (f : Callable) (args : List Value) (s : Store)
      → Calls (call f args ∷ []) s (invoke_resource world f args none s).1
  unfolding invoke_resource
  invoke_resource-Calls f args s = record {
    instances = ground arith;
    readiness = ground arith;
    history = ground arith;
  }

  pub close_by-Calls :
      (o : Option (Callable × List Value)) (v : Value) (s : Store)
      → Calls (call_of o) s (close_by world o v s).1
  unfolding close_by
  close_by-Calls none v s = record { instances = refl; readiness = refl; history = refl }
  close_by-Calls (some (f, args)) v s = invoke_resource-Calls f args s

  -- Releasing the last value takes it out, with its spec, and closes it by its closing call.
  release_last :
      (s0 : Store) (r : ManagedResource) (v : Value) (st : Started) (s : Store)
      → Holds s0 ((r, v) ∷ st) s
      → Fresh s0 ((r, v) ∷ st)
      → Holds s0 st (release world r v s).1
        × (calls (release world r v s).1.history ≡ closing_call r v ++ calls s.history)
  unfolding release close_resource unregister_check
  release_last s0 r v st s h (new_name, new_spec, fresh) =
      let name = resource_name r in
      let held = record s { instances = remove name s.instances } in
      let s1 = (close_by world (closer r v) v held).1 in
      let c = close_by-Calls (closer r v) v held in
      let kept = drop_spec_rest name v s1 r.healthcheck (get name s1.readiness.specs) in
      (
        record {
          instances =
              kept.1
              ∙ c.instances
              ∙ ground
                  (arith, h.instances, remove-append_self name v (instances_of s0.instances st));
          specs =
              drop_spec_last r v (specs_of s0.readiness.specs st) s1 r.healthcheck new_spec
                (ap (λ (x : ReadinessRegistry). x.specs) c.readiness ∙ h.specs);
          default =
              kept.2
              ∙ ap (λ (x : ReadinessRegistry). x.default_timeout_seconds) c.readiness
              ∙ h.default;
        },
        ap calls kept.0 ∙ c.history,
      )

  -- Nothing is done for a resource that is not held.
  close_loop-absent :
      (rs ys : List ManagedResource) (s : Store)
      → All (λ r. get (resource_name r) s.instances ≡ none) rs
      → close_loop world (rs ++ ys) s ≡ close_loop world ys s
  unfolding close_loop
  close_loop-absent [] ys s h = refl
  close_loop-absent (r ∷ rs) ys s h = rw (h.0, close_loop) (close_loop-absent rs ys s h.1)

  close_loop-Holds :
      (s0 : Store) (st : Started) (s : Store)
      → Holds s0 st s
      → Fresh s0 st
      → let s' = (close_loop world (map (λ p. p.0) st) s).1 in
        Holds s0 [] s' × (calls s'.history ≡ closings st ++ calls s.history)
  unfolding close_loop
  close_loop-Holds s0 [] s h fresh = (h, refl)
  close_loop-Holds s0 ((r, v) ∷ st) s h fresh =
      let held : get (resource_name r) s.instances ≡ some v =
        rw h.instances (get-append_self (resource_name r) v _ fresh.0) in
      let (after, called) = release_last s0 r v st s h fresh in
      let (last, all_called) = close_loop-Holds s0 st (release world r v s).1 after fresh.2 in
      rw (held, close_loop)
        (
          last,
          all_called
              ∙ ap (λ h. closings st ++ h) called
              ∙ sym (append_assoc (closings st) (closing_call r v) (calls s.history)),
        )

  -- Closing everything, when the resources are those created and some that never were.
  pub close_loop_lem :
      (s0 : Store) (st : Started) (rest : List ManagedResource) (s : Store)
      → Holds s0 st s
      → Fresh s0 st
      → All (λ r. get (resource_name r) s.instances ≡ none) rest
      → let s' = (close_loop world (reverse (reverse_aux (map (λ p. p.0) st) rest)) s).1 in
        Holds s0 [] s' × (calls s'.history ≡ closings st ++ calls s.history)
  close_loop_lem s0 st rest s h fresh absent =
      let ms = map (λ (p : ManagedResource × Value). p.0) st in
      let e = reverse_aux-reverse_aux-nil ms rest ∙ reverse_aux-eq rest ms in
      rw e (
        rw
          (close_loop-absent (reverse rest) ms s
            (All-reverse (λ r. get (resource_name r) s.instances ≡ none) rest absent))
          (close_loop-Holds s0 st s h fresh))

  pub release-instances :
      (r : ManagedResource) (v : Value) (s : Store)
      → (release world r v s).1.instances ≡ remove (resource_name r) s.instances
  unfolding release close_resource unregister_check
  release-instances r v s =
      let held = record s { instances = remove (resource_name r) s.instances } in
      let s1 = (close_by world (closer r v) v held).1 in
      let found = get (resource_name r) s1.readiness.specs in
      (drop_spec_rest (resource_name r) v s1 r.healthcheck found).1
      ∙ (close_by-Calls (closer r v) v held).instances

  close_loop_keeps_absent :
      (k : String) (rs : List ManagedResource) (s : Store)
      → get k s.instances ≡ none
      → get k (close_loop world rs s).1.instances ≡ none
  unfolding close_loop
  close_loop_keeps_absent k [] s h = h
  close_loop_keeps_absent k (r ∷ rs) s h = elim (Option-cases (get (resource_name r) s.instances)) [
    | inl absent ↦ rw (absent, close_loop) (close_loop_keeps_absent k rs s h)
    | inr (v, held) ↦
        rw (held, close_loop)
          (close_loop_keeps_absent k rs (release world r v s).1
            (rw release-instances (get-remove (resource_name r) k s.instances ∙ ground (arith, h))))
  ]

  pub close_loop-skip :
      (r : ManagedResource) (rs : List ManagedResource) (s : Store)
      → get (resource_name r) s.instances ≡ none
      → (close_loop world (r ∷ rs) s).1 ≡ (close_loop world rs s).1
  unfolding close_loop
  close_loop-skip r rs s absent = rw (absent, close_loop)

  pub close_loop-release :
      (r : ManagedResource) (v : Value) (rs : List ManagedResource) (s : Store)
      → get (resource_name r) s.instances ≡ some v
      → (close_loop world (r ∷ rs) s).1 ≡ (close_loop world rs (release world r v s).1).1
  unfolding close_loop
  close_loop-release r v rs s held = rw (held, close_loop)

  -- Whatever the state, no resource of the list is held at the end.
  pub close_loop_empties :
      (rs : List ManagedResource) (s : Store) → NoneHeld rs (close_loop world rs s).1
  close_loop_empties [] s = tt
  close_loop_empties (r ∷ rs) s = elim (Option-cases (get (resource_name r) s.instances)) [
    | inl absent ↦
        subst (NoneHeld (r ∷ rs)) (sym (close_loop-skip r rs s absent))
          (close_loop_keeps_absent (resource_name r) rs s absent, close_loop_empties rs s)
    | inr (v, held) ↦
        let s' = (release world r v s).1 in
        let gone : get (resource_name r) s'.instances ≡ none = rw release-instances (
          get-remove (resource_name r) (resource_name r) s.instances
          ∙ ground (arith, string_eq.beq_iff (resource_name r) (resource_name r))) in
        subst (NoneHeld (r ∷ rs)) (sym (close_loop-release r v rs s held))
          (close_loop_keeps_absent (resource_name r) rs s' gone, close_loop_empties rs s')
  ]
