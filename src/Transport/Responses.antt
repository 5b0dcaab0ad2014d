-- ===== src/Transport/Responses.antt =====
-- Which definition a policy gives for a status code.
use fastapi_core.Prelude.{
  ℕ, Bool, true, false, ◌≡◌, refl, Option, none, some, List, [], ◌∷◌, contains, nat_beq,
  nat_beq_iff, arith, nat_eq, or_else, Option-cases, inl, inr,
}
use fastapi_core.Dict.{Dict, get, set_default}
use fastapi_core.Dict.Laws.{get-set_default}
use fastapi_core.Transport.{
  TransportPolicy, Definition, declared, built, effective_validation_status,
  effective_common_error_statuses, set_defaults, add_common, add_fallback, declare,
  response_definitions,
}

-- `v` under the condition
abbrev when {ℓ} : {A : Type ℓ} → Bool → A → Option A
when true v = some v
when false v = none

abbrev as_declared : Option ℕ → Option Definition
as_declared none = none
as_declared (some m) = some (declared m)

-- What each source says of a status.
abbrev pub from_validation : TransportPolicy → ℕ → Option Definition
from_validation p k =
    when (nat_beq (effective_validation_status p) k)
      (built "Request validation error" p.validation_response_model)

abbrev common_of : List ℕ → ℕ → Option ℕ → Option Definition
common_of ks k none = none
common_of ks k (some m) = when (contains k ks) (built "Common error response" (some m))

abbrev pub from_common : TransportPolicy → ℕ → Option Definition
from_common p k = common_of (effective_common_error_statuses p) k p.common_error_response_model

abbrev fallback_of : ℕ → Option ℕ → Option Definition
fallback_of k none = none
fallback_of k (some m) = when (nat_beq 500 k) (built "Fallback error response" (some m))

abbrev pub from_fallback : TransportPolicy → ℕ → Option Definition
from_fallback p k = fallback_of k p.fallback_response_model

get-set_defaults :
    (k : ℕ) (ks : List ℕ) (v : Definition) (d : Dict ℕ Definition)
    → get k (set_defaults ks v d) ≡ or_else (get k d) (when (contains k ks) v)
unfolding set_defaults
get-set_defaults k [] v d = ground arith
get-set_defaults k (j ∷ ks) v d = ground (
  arith,
  get-set_defaults k ks v (set_default j v d),
  get-set_default j k v d,
  nat_beq_iff j k,
  nat_beq_iff k j,
)

get-declare : (k : ℕ) (d : Dict ℕ ℕ) → get k (declare d) ≡ as_declared (get k d)
unfolding get
get-declare k [] = refl
get-declare k ((j, v) ∷ d) = ground (arith, get-declare k d)

get-add_common :
    (p : TransportPolicy) (k : ℕ) (d : Dict ℕ Definition)
    → get k (add_common p d) ≡ or_else (get k d) (from_common p k)
get-add_common p k d = elim (Option-cases p.common_error_response_model) [
  | inl e ↦ ground arith
  | inr (m, e) ↦ ground (
    arith,
    get-set_defaults k (effective_common_error_statuses p) (built "Common error response" (some m))
        d,
  )
]

get-add_fallback :
    (p : TransportPolicy) (k : ℕ) (d : Dict ℕ Definition)
    → get k (add_fallback p d) ≡ or_else (get k d) (from_fallback p k)
get-add_fallback p k d = elim (Option-cases p.fallback_response_model) [
  | inl e ↦ ground arith
  | inr (m, e) ↦ ground (arith, get-set_default 500 k (built "Fallback error response" (some m)) d)
]

-- A status has the definition that the policy declares for it, else the one for failed validation
-- if it is the validation status, else the common one, else the fallback if it is 500, else none.
pub get-response_definitions :
    (p : TransportPolicy) (k : ℕ)
    → get k (response_definitions p)
      ≡ or_else
          (as_declared (get k p.responses))
          (or_else (from_validation p k) (or_else (from_common p k) (from_fallback p k)))
unfolding response_definitions
get-response_definitions p k =
    let validation = built "Request validation error" p.validation_response_model in
    let status = effective_validation_status p in
    let first = set_default status validation (declare p.responses) in
    ground (
      arith,
      get-add_fallback p k (add_common p first),
      get-add_common p k first,
      get-declare k p.responses,
      get-set_default status k validation (declare p.responses),
    )
