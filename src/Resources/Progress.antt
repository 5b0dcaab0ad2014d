-- ===== src/Resources/Progress.antt =====
-- How far the loop of `start` comes.
use mathlib.Core.List.{reverse_aux}
use fastapi_core.Prelude.{
  String, string_eq, true, false, ◌≡◌, refl, ap, ◌∙◌, ◌⊎◌, inl, inr, Option, none, some, List, [],
  ◌∷◌, ◌++◌, map, All, All-map, distinct, contains, arith, append-nil, is_some,
}
use fastapi_core.Text.{is_blank}
use fastapi_core.Dict.{Dict, get, put}
use fastapi_core.Dict.Laws.{put-append, get-append_ne}
use fastapi_core.Result.{Exn, Result, ok, err, Result-cases}
use fastapi_core.Store.{Callable, Value, ReadinessCheckSpec, ReadinessRegistry, Store, World}
use fastapi_core.Invocation.{invoke_resource}
use fastapi_core.Readiness.{is_bad_timeout}
use fastapi_core.Readiness.Registry.{register_iff}
use fastapi_core.Resources.{ManagedResource, resource_name}
use fastapi_core.Resources.Running.{check_spec, register_for, create, start_loop}
use fastapi_core.Resources.Held.{Started, entry_of, instances_of, specs_of, Holds, Fresh}
use fastapi_core.Resources.Closing.{invoke_resource-Calls}

-- A resource that may be created: its name is in neither dictionary, and its spec will be accepted.
pub record IsReady (s : Store) (r : ManagedResource) : Type 0 where
  pub not_held : get (resource_name r) s.instances ≡ none
  pub not_checked : get (resource_name r) s.readiness.specs ≡ none
  pub named : is_blank (resource_name r) ≡ false
  pub timely : is_bad_timeout r.readiness_timeout_seconds ≡ false

module _ (r : ManagedResource) (v : Value) (s : Store) where
  abbrev with_entry : Option Callable → Store
  with_entry o = record s {
    readiness = record s.readiness { specs = s.readiness.specs ++ entry_of r v o };
  }

  register_for_lem :
      (o : Option Callable)
      → get (resource_name r) s.readiness.specs ≡ none
      → is_blank (resource_name r) ≡ false
      → is_bad_timeout r.readiness_timeout_seconds ≡ false
      → register_for r v o s ≡ (ok tt, with_entry o)
  unfolding register_for
  register_for_lem none new named timely = rw append-nil
  register_for_lem (some h) new named timely =
      let spec = check_spec r h v in
      let e =
        (register_iff spec s.readiness (with_entry (some h)).readiness).1
          ((named, rw new, timely), refl) in
      rw e

-- What one round of `start` does: a failed factory leaves the dictionaries alone, and a value is
-- put into them.
abbrev Created : Store → Started → ManagedResource → Result (Unit {0}) × Store → Type 0
Created s0 st r (result, s') =
    ((e : Exn) × (result ≡ err e) × Holds s0 st s')
    ⊎ ((v : Value) × (result ≡ ok tt) × Holds s0 ((r, v) ∷ st) s')

module _ (world : World) (app : Value) (s0 : Store) where
  store_value-Holds :
      (st : Started) (r : ManagedResource) (v : Value) (s s1 : Store)
      → Holds s0 st s
      → IsReady s r
      → s1.instances ≡ s.instances
      → s1.readiness ≡ s.readiness
      → let held = record s1 { instances = put (resource_name r) v s1.instances } in
        Holds s0 ((r, v) ∷ st) (with_entry r v held r.healthcheck)
  store_value-Holds st r v s s1 h ready same_instances same_readiness =
      let new : get (resource_name r) (instances_of s0.instances st) ≡ none =
        rw (← h.instances) ready.not_held in
      record {
        instances =
            ap (put (resource_name r) v) (same_instances ∙ h.instances)
            ∙ put-append (resource_name r) v _ (ap is_some new);
        specs =
            ap (λ (x : ReadinessRegistry). x.specs ++ entry_of r v r.healthcheck) same_readiness
            ∙ ap (λ d. d ++ entry_of r v r.healthcheck) h.specs;
        default =
            ap (λ (x : ReadinessRegistry). x.default_timeout_seconds) same_readiness ∙ h.default;
      }

  create-Created :
      (st : Started) (r : ManagedResource) (s : Store)
      → Holds s0 st s
      → IsReady s r
      → Created s0 st r (create world app r s)
  unfolding create
  create-Created st r s h ready =
      let s1 = (invoke_resource world r.factory (app ∷ []) none s).1 in
      let c = invoke_resource-Calls world r.factory (app ∷ []) s in
      elim (Result-cases (invoke_resource world r.factory (app ∷ []) none s).0) [
        | inr (e, failed) ↦ rw failed (
            inl (
              e,
              refl,
              record {
                instances = c.instances ∙ h.instances;
                specs = ap (λ (x : ReadinessRegistry). x.specs) c.readiness ∙ h.specs;
                default =
                    ap (λ (x : ReadinessRegistry). x.default_timeout_seconds) c.readiness
                    ∙ h.default;
              },
            ))
        | inl (v, made) ↦
            let held = record s1 { instances = put (resource_name r) v s1.instances } in
            let new : get (resource_name r) s1.readiness.specs ≡ none =
              rw (c.readiness) ready.not_checked in
            rw (made, register_for_lem r v held r.healthcheck new ready.named ready.timely)
              (inr (v, refl, store_value-Holds st r v s s1 h ready c.instances c.readiness))
      ]

  specs-entry_ne :
      (r r' : ManagedResource) (v : Value) (d : Dict String ReadinessCheckSpec)
      (o : Option Callable)
      → get (resource_name r') d ≡ none
      → string_eq.beq (resource_name r) (resource_name r') ≡ false
      → get (resource_name r') (d ++ entry_of r v o) ≡ none
  specs-entry_ne r r' v d none new ne = rw append-nil new
  specs-entry_ne r r' v d (some h) new ne =
      get-append_ne (resource_name r') (resource_name r) _ d new ne

  -- The other resources stay ready when one is created.
  IsReady-after :
      (st : Started) (r : ManagedResource) (v : Value) (s s' : Store) (rs : List ManagedResource)
      → Holds s0 st s
      → Holds s0 ((r, v) ∷ st) s'
      → contains (resource_name r) (map resource_name rs) ≡ false
      → All (IsReady s) rs
      → All (IsReady s') rs
  IsReady-after st r v s s' [] h h' other ready = tt
  IsReady-after st r v s s' (r' ∷ rs) h h' other (ready, later) =
      let ne : string_eq.beq (resource_name r) (resource_name r') ≡ false = ground arith in
      (
        record {
          not_held = rw h'.instances (
              get-append_ne (resource_name r') (resource_name r) v (instances_of s0.instances st)
                (rw (← h.instances) ready.not_held) ne);
          not_checked = rw h'.specs (
              specs-entry_ne r r' v (specs_of s0.readiness.specs st) r.healthcheck
                (rw (← h.specs) ready.not_checked) ne);
          named = ready.named;
          timely = ready.timely;
        },
        IsReady-after st r v s s' rs h h' (ground arith) later,
      )

  still_absent :
      (st : Started) (s s' : Store) (rs : List ManagedResource)
      → Holds s0 st s
      → Holds s0 st s'
      → All (IsReady s) rs
      → All (λ r. get (resource_name r) s'.instances ≡ none) rs
  still_absent st s s' rs h h' ready =
      All-map {P = IsReady s} (λ r c. rw h'.instances (rw (← h.instances) c.not_held)) rs ready

  -- The loop of `start` goes on until a factory fails or the resources are used up.
  pub record Progress (st : Started) (rs : List ManagedResource) (r : Result (Unit {0}))
      (s' : Store) : Type 0 where
    pub created : Started
    pub rest : List ManagedResource
    pub order : reverse_aux (map (λ p. p.0) st) rs ≡ reverse_aux (map (λ p. p.0) created) rest
    pub holds : Holds s0 created s'
    pub fresh : Fresh s0 created
    pub absent : All (λ r. get (resource_name r) s'.instances ≡ none) rest
    pub complete : r ≡ ok tt → rest ≡ []

  pub start_loop-Progress :
      (st : Started) (rs : List ManagedResource) (s : Store)
      → Holds s0 st s
      → Fresh s0 st
      → All (IsReady s) rs
      → distinct (map resource_name rs) ≡ true
      → Progress st rs (start_loop world app rs s).0 (start_loop world app rs s).1
  unfolding start_loop
  start_loop-Progress st [] s h fresh ready unique = record {
    created = st;
    rest = [];
    order = refl;
    holds = h;
    fresh = fresh;
    absent = tt;
    complete = λ _. refl;
  }
  start_loop-Progress st (r ∷ rs) s h fresh ready unique = elim (create-Created st r s h ready.0) [
    | inl (e, failed, h') ↦ rw failed (record {
      created = st;
      rest = r ∷ rs;
      order = refl;
      holds = h';
      fresh = fresh;
      absent = still_absent st s _ (r ∷ rs) h h' ready;
      complete = λ c. cc;
    })
    | inr (v, made, h') ↦
        let new : get (resource_name r) (instances_of s0.instances st) ≡ none =
          rw (← h.instances) ready.0.not_held in
        let unchecked : get (resource_name r) (specs_of s0.readiness.specs st) ≡ none =
          rw (← h.specs) ready.0.not_checked in
        let p =
          start_loop-Progress ((r, v) ∷ st) rs (create world app r s).1 h' (new, unchecked, fresh)
            (IsReady-after st r v s (create world app r s).1 rs h h' (ground arith) ready.1)
            (ground arith) in
        rw made (record {
          created = p.created;
          rest = p.rest;
          order = p.order;
          holds = p.holds;
          fresh = p.fresh;
          absent = p.absent;
          complete = p.complete;
        })
  ]
