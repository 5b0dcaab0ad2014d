-- ===== src/Transport/Merge.antt =====
-- How the policies of the application and of its modules combine.
use fastapi_core.Prelude.{
  ℕ, Bool, true, false, not, ◌≡◌, refl, Option, none, some, List, [], ◌∷◌, append_assoc, any,
  distinct, nat_eq, or_else,
}
use fastapi_core.Dict.{keys, get, update}
use fastapi_core.Dict.Update.{distinct-update, get-update}
use fastapi_core.Result.{ok, ◌>>=◌}
use fastapi_core.Transport.{
  TransportPolicy, is_error_status, all_of, post_init, or_statuses, merge, resolve,
}

-- What the constructor ensures; the responses are a dictionary.
pub record IsValid (p : TransportPolicy) : Type 0 where
  pub status : all_of is_error_status p.validation_status ≡ true
  pub statuses : any (λ n. not (is_error_status n)) p.common_error_statuses ≡ false
  pub keyed : distinct (keys p.responses) ≡ true

-- Equality of policies, where a dictionary is what its keys find.
pub record SamePolicy (p q : TransportPolicy) : Type 0 where
  pub dependencies : p.dependencies ≡ q.dependencies
  pub validation_status : p.validation_status ≡ q.validation_status
  pub validation_response_model : p.validation_response_model ≡ q.validation_response_model
  pub common_error_response_model : p.common_error_response_model ≡ q.common_error_response_model
  pub fallback_response_model : p.fallback_response_model ≡ q.fallback_response_model
  pub common_error_statuses : p.common_error_statuses ≡ q.common_error_statuses
  pub include_synthetic_422 : p.include_synthetic_422 ≡ q.include_synthetic_422
  pub responses : (k : ℕ) → get k p.responses ≡ get k q.responses
  pub error_renderer : p.error_renderer ≡ q.error_renderer

or_else_assoc : {A : Type 0} (a b c : Option A) → or_else a (or_else b c) ≡ or_else (or_else a b) c
or_else_assoc none b c = refl
or_else_assoc (some a) b c = refl

or_statuses_assoc :
    (a b c : List ℕ) → or_statuses a (or_statuses b c) ≡ or_statuses (or_statuses a b) c
or_statuses_assoc [] b c = refl
or_statuses_assoc (x ∷ a) b c = refl

all_of-or_else :
    {A : Type 0} (p : A → Bool) (x y : Option A)
    → all_of p x ≡ true
    → all_of p y ≡ true
    → all_of p (or_else x y) ≡ true
all_of-or_else p none y h k = k
all_of-or_else p (some a) y h k = h

any-or_statuses :
    (p : ℕ → Bool) (xs ys : List ℕ)
    → any p xs ≡ false
    → any p ys ≡ false
    → any p (or_statuses xs ys) ≡ false
any-or_statuses p [] ys h k = k
any-or_statuses p (x ∷ xs) ys h k = h

merge-IsValid : (a b : TransportPolicy) → IsValid a → IsValid b → IsValid (merge a b)
unfolding merge
merge-IsValid a b va vb = record {
  status =
      all_of-or_else is_error_status b.validation_status a.validation_status vb.status va.status;
  statuses =
      any-or_statuses (λ n. not (is_error_status n)) b.common_error_statuses a.common_error_statuses
        vb.statuses va.statuses;
  keyed = distinct-update a.responses b.responses va.keyed;
}

resolve-merge :
    (a b : TransportPolicy) → IsValid a → IsValid b → resolve (some a) (some b) ≡ ok (merge a b)
unfolding resolve post_init
resolve-merge a b va vb = let v = merge-IsValid a b va vb in rw (v.status, v.statuses) refl

merge_assoc :
    (a b c : TransportPolicy)
    → IsValid b
    → IsValid c
    → SamePolicy (merge (merge a b) c) (merge a (merge b c))
unfolding merge
merge_assoc a b c vb vc = record {
  dependencies = append_assoc a.dependencies b.dependencies c.dependencies;
  validation_status = or_else_assoc c.validation_status b.validation_status a.validation_status;
  validation_response_model =
      or_else_assoc c.validation_response_model b.validation_response_model
        a.validation_response_model;
  common_error_response_model =
      or_else_assoc c.common_error_response_model b.common_error_response_model
        a.common_error_response_model;
  fallback_response_model =
      or_else_assoc c.fallback_response_model b.fallback_response_model a.fallback_response_model;
  common_error_statuses =
      or_statuses_assoc c.common_error_statuses b.common_error_statuses a.common_error_statuses;
  include_synthetic_422 =
      or_else_assoc c.include_synthetic_422 b.include_synthetic_422 a.include_synthetic_422;
  responses = λ k.
      rw
        (
          get-update k (update a.responses b.responses) c.responses vc.keyed,
          get-update k a.responses b.responses vb.keyed,
          get-update k a.responses (update b.responses c.responses)
              (distinct-update b.responses c.responses vb.keyed),
          get-update k b.responses c.responses vc.keyed,
        )
        (or_else_assoc (get k c.responses) (get k b.responses) (get k a.responses));
  error_renderer = or_else_assoc c.error_renderer b.error_renderer a.error_renderer;
}

-- Resolving valid policies never fails, gives a valid policy, and it does not matter which two
-- of three are resolved first.
pub resolve_assoc :
    (a b c : TransportPolicy)
    → IsValid a
    → IsValid b
    → IsValid c
    → (left : TransportPolicy) × (right : TransportPolicy) × ((resolve (some a) (some b) >>= λ ab.
          resolve (some ab) (some c))
        ≡ ok left)
      × ((resolve (some b) (some c) >>= λ bc. resolve (some a) (some bc)) ≡ ok right)
      × IsValid left
      × SamePolicy left right
resolve_assoc a b c va vb vc =
    let vab = merge-IsValid a b va vb in
    let vbc = merge-IsValid b c vb vc in
    (
      merge (merge a b) c,
      merge a (merge b c),
      rw (resolve-merge a b va vb) (resolve-merge (merge a b) c vab vc),
      rw (resolve-merge b c vb vc) (resolve-merge a (merge b c) va vbc),
      merge-IsValid (merge a b) c vab vc,
      merge_assoc a b c vb vc,
    )
