-- ===== src/Resources/Starting.antt =====
-- Starting is all or nothing, and closing undoes it.
use mathlib.Core.List.{reverse, reverse_aux, reverse-reverse}
use mathlib.Core.Path.{subst}
use fastapi_core.Prelude.{
  string_eq, true, ◌≡◌, refl, sym, ap, ◌∙◌, inl, inr, none, List, [], ◌∷◌, ◌++◌, map, All,
  All-reverse, distinct, arith, ◌≢◌,
}
use fastapi_core.Dict.{get}
use fastapi_core.Result.{Exn, Result, ok, err, Result-cases}
use fastapi_core.Store.{Value, ReadinessRegistry, Store, World}
use fastapi_core.Resources.{ManagedResource, resource_name}
use fastapi_core.Resources.Running.{start_loop, start, close, close_loop, shutdown, with_note}
use fastapi_core.Resources.Held.{Started, Holds, Fresh, calls, closings, NoneHeld}
use fastapi_core.Resources.Closing.{close_loop_lem, close_loop_empties}
use fastapi_core.Resources.Progress.{IsReady, Progress, start_loop-Progress}

pub shutdown_state : (p : List Exn × Store) → (shutdown p).1 ≡ p.1
shutdown_state ([], s) = refl
shutdown_state (e ∷ es, s) = refl

with_note-ne_ok : (e : Exn) (r : Result (Unit {0})) → with_note e r ≢ ok tt
with_note-ne_ok e (ok _) = cc
with_note-ne_ok e (err c) = cc

-- The resources are the created ones, in the order of creation, and then the rest.
abbrev pub Ordered : List ManagedResource → Started → List ManagedResource → Type 0
Ordered rs created rest = rs ≡ reverse_aux (map (λ p. p.0) created) rest

-- The dictionaries of two stores are the same.
abbrev pub SameDicts : Store → Store → Type 0
SameDicts s s0 = (s.instances ≡ s0.instances) × (s.readiness ≡ s0.readiness)

module _ (world : World) (app : Value) (s0 : Store) (rs : List ManagedResource) where
  close-Holds :
      (created : Started) (rest : List ManagedResource) (s : Store)
      → Ordered rs created rest
      → Holds s0 created s
      → Fresh s0 created
      → All (λ r. get (resource_name r) s.instances ≡ none) rest
      → let s' = (close world rs s).1 in
        SameDicts s' s0 × (calls s'.history ≡ closings created ++ calls s.history)
  unfolding close
  close-Holds created rest s order h fresh absent =
      let (last, called) = close_loop_lem world s0 created rest s h fresh absent in
      rw (shutdown_state, order)
        ((last.instances, ground (arith, last.specs, last.default)), called)

  -- Whatever the state and whatever raises, no resource is held after `close`.
  pub close_empties : (s : Store) → NoneHeld rs (close world rs s).1
  unfolding close
  close_empties s =
      let looped = close_loop_empties world (reverse rs) s in
      let s' = (close_loop world (reverse rs) s).1 in
      let all_of_them : NoneHeld rs s' =
        subst (λ l. NoneHeld l s') (reverse-reverse rs)
          (All-reverse (λ r. get (resource_name r) s'.instances ≡ none) (reverse rs) looped) in
      subst (NoneHeld rs) (sym (shutdown_state (close_loop world (reverse rs) s))) all_of_them

  module _ (ready : All (IsReady s0) rs) (unique : distinct (map resource_name rs) ≡ true) where
    progress :
        Progress world app s0 [] rs (start_loop world app rs s0).0 (start_loop world app rs s0).1
    progress =
        start_loop-Progress world app s0 [] rs s0
          (record { instances = refl; specs = refl; default = refl }) tt ready unique

    start-err :
        (e : Exn)
        → (start_loop world app rs s0).0 ≡ err e
        → (start world app rs s0).1 ≡ (close world rs (start_loop world app rs s0).1).1
    unfolding start
    start-err e failed = rw failed

    start-loop_err :
        (e : Exn)
        → (start world app rs s0).0 ≡ err e
        → (e' : Exn) × ((start_loop world app rs s0).0 ≡ err e')
    unfolding start
    start-loop_err e failed = elim (Result-cases (start_loop world app rs s0).0) [
      | inl (_, done) ↦ absurd (cc (rw (done, start) at failed))
      | inr (e', f) ↦ (e', f)
    ]

    start-loop_ok :
        (start world app rs s0).0 ≡ ok tt
        → ((start_loop world app rs s0).0 ≡ ok tt)
          × ((start world app rs s0).1 ≡ (start_loop world app rs s0).1)
    unfolding start
    start-loop_ok done = elim (Result-cases (start_loop world app rs s0).0) [
      | inl (_, fine) ↦ (fine, rw fine)
      | inr (e, f) ↦ absurd (with_note-ne_ok e _ (rw (f, start) at done))
    ]

    pub start_rolls_back :
        (e : Exn)
        → (start world app rs s0).0 ≡ err e
        → let s = (start world app rs s0).1 in
          SameDicts s s0
          × ((created : Started) × (rest : List ManagedResource) × Ordered rs created rest
              × (calls s.history
                  ≡ closings created ++ calls (start_loop world app rs s0).1.history))
    start_rolls_back e failed =
        let (e', loop_failed) = start-loop_err e failed in
        let p = progress in
        let (same, called) = close-Holds p.created p.rest _ p.order p.holds p.fresh p.absent in
        rw (start-err e' loop_failed) (same, (p.created, p.rest, p.order, called))

    pub start_creates :
        (start world app rs s0).0 ≡ ok tt
        → (created : Started) × Ordered rs created [] × Holds s0 created (start world app rs s0).1
    start_creates done =
        let (loop_done, same) = start-loop_ok done in
        let p = progress in (p.created, rw (p.complete loop_done) at p.order, rw same p.holds)

    pub close-start :
        (later : Store)
        → (start world app rs s0).0 ≡ ok tt
        → SameDicts later (start world app rs s0).1
        → let s = (close world rs later).1 in
          SameDicts s s0
          × ((created : Started) × Ordered rs created []
              × (calls s.history ≡ closings created ++ calls later.history))
    close-start later done (same_instances, same_readiness) =
        let (loop_done, same) = start-loop_ok done in
        let p = progress in
        let none_left = p.complete loop_done in
        let h : Holds s0 p.created later = record {
          instances = same_instances ∙ ap (λ (s : Store). s.instances) same ∙ p.holds.instances;
          specs =
              ap (λ (x : ReadinessRegistry). x.specs) same_readiness
              ∙ ap (λ (s : Store). s.readiness.specs) same
              ∙ p.holds.specs;
          default =
              ap (λ (x : ReadinessRegistry). x.default_timeout_seconds) same_readiness
              ∙ ap (λ (s : Store). s.readiness.default_timeout_seconds) same
              ∙ p.holds.default;
        } in
        let order = rw none_left at p.order in
        let (dicts, called) = close-Holds p.created [] later order h p.fresh tt in
        (dicts, (p.created, order, called))
