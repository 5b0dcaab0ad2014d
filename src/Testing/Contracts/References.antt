-- ===== src/Testing/Contracts/References.antt =====
-- When the references of a document are resolved.
use fastapi_core.Prelude.{String, string_eq, Bool, true, ◌≡◌, ◌↔◌, refl, Option, none, some, arith}
use fastapi_core.Dict.{Dict, has}
use fastapi_core.Json.{
  Json, null, flag, number, text, array, object, Items, nil, cons, Members, end, member,
}
use fastapi_core.Result.{ok}
use fastapi_core.Testing.Contracts.{
  reference_of, validate_references, validate_items, validate_members,
}

-- A value stands somewhere in another.
mutual
  pub data Within (u : Json) : Json → Type 0 where
    here : {v : Json} → u ≡ v → Within u v
    in_array : {vs : Items} → WithinItems u vs → Within u (array vs)
    in_object : {ms : Members} → WithinMembers u ms → Within u (object ms)

  pub data WithinItems (u : Json) : Items → Type 0 where
    head : {v : Json} {vs : Items} → Within u v → WithinItems u (cons v vs)
    tail : {v : Json} {vs : Items} → WithinItems u vs → WithinItems u (cons v vs)

  pub data WithinMembers (u : Json) : Members → Type 0 where
    first : {k : String} {v : Json} {ms : Members} → Within u v → WithinMembers u (member k v ms)
    later :
        {k : String} {v : Json} {ms : Members}
        → WithinMembers u ms
        → WithinMembers u (member k v ms)

abbrev is_known : Dict String Json → Option String → Bool
is_known schemas none = true
is_known schemas (some name) = has name schemas

-- A value that is no reference to a schema, or one to a schema that is there.
abbrev pub is_resolved : Dict String Json → Json → Bool
is_resolved schemas (object ms) = is_known schemas (reference_of ms)
is_resolved schemas _ = true

module _ (schemas : Dict String Json) where
  self : (v : Json) → validate_references schemas v ≡ ok tt → is_resolved schemas v ≡ true
  unfolding validate_references
  self null h = refl
  self (flag b) h = refl
  self (number n) h = refl
  self (text t) h = refl
  self (array vs) h = refl
  self (object ms) h = ground arith

  mutual
    unfolding validate_references validate_items validate_members

    resolved :
        {u v : Json}
        → Within u v
        → validate_references schemas v ≡ ok tt
        → is_resolved schemas u ≡ true
    resolved {v = v} (here e) h = rw e (self v h)
    resolved (in_array w) h = resolved_items w h
    resolved (in_object w) h = resolved_members w (ground arith)

    resolved_items :
        {u : Json} {vs : Items}
        → WithinItems u vs
        → validate_items schemas vs ≡ ok tt
        → is_resolved schemas u ≡ true
    resolved_items (head w) h = resolved w (ground arith)
    resolved_items (tail w) h = resolved_items w (ground arith)

    resolved_members :
        {u : Json} {ms : Members}
        → WithinMembers u ms
        → validate_members schemas ms ≡ ok tt
        → is_resolved schemas u ≡ true
    resolved_members (first w) h = resolved w (ground arith)
    resolved_members (later w) h = resolved_members w (ground arith)

  mutual
    unfolding validate_references validate_items validate_members

    passes :
        (v : Json)
        → ((u : Json) → Within u v → is_resolved schemas u ≡ true)
        → validate_references schemas v ≡ ok tt
    passes null h = refl
    passes (flag b) h = refl
    passes (number n) h = refl
    passes (text t) h = refl
    passes (array vs) h = passes_items vs (λ u w. h u (in_array w))
    passes (object ms) h =
        let own = h (object ms) (here refl) in
        let below = passes_members ms (λ u w. h u (in_object w)) in ground arith

    passes_items :
        (vs : Items)
        → ((u : Json) → WithinItems u vs → is_resolved schemas u ≡ true)
        → validate_items schemas vs ≡ ok tt
    passes_items nil h = refl
    passes_items (cons v vs) h =
        rw (passes v (λ u w. h u (head w))) (passes_items vs (λ u w. h u (tail w)))

    passes_members :
        (ms : Members)
        → ((u : Json) → WithinMembers u ms → is_resolved schemas u ≡ true)
        → validate_members schemas ms ≡ ok tt
    passes_members end h = refl
    passes_members (member k v ms) h =
        rw (passes v (λ u w. h u (first w))) (passes_members ms (λ u w. h u (later w)))

  -- References pass exactly if every value, however deep it stands, that refers to a schema of the
  -- document by a `$ref` refers to one that is there.
  pub validate_references_iff :
      (v : Json)
      → (validate_references schemas v ≡ ok tt)
        ↔ ((u : Json) → Within u v → is_resolved schemas u ≡ true)
  validate_references_iff v = (λ h u w. resolved w h, passes v)
