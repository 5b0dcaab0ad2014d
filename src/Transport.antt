-- ===== src/Transport.antt =====
-- fastapi_core/transport.py: the policy of a route for errors and for the generated OpenAPI. An
-- object that the program only hands on or compares, such as a model, a dependency, a renderer or
-- the mapping that defines a response, is a number, the same for objects that are equal.
pub mod Merge
pub mod Responses
pub mod Conflicts
use fastapi_core.Prelude.{
  ℕ, String, Bool, true, false, not, ◌&&◌, Option, none, some, List, [], ◌∷◌, ◌++◌, map, any, all,
  length, is_empty, dedupe, nat_eq, list_eq, bool_eq, pair_eq, Eq, ltb, leb, nat_beq, or_else,
  get_or, if◌then◌else◌,
}
use fastapi_core.Text.{◌<>◌}
use fastapi_core.Dict.{Dict, update, set_default}
use fastapi_core.Result.{Result, ok, err, value_error, raise_if, ◌>>◌}

pub record TransportPolicy : Type 0 where
  pub dependencies : List ℕ
  pub validation_status : Option ℕ
  pub validation_response_model : Option ℕ
  pub common_error_response_model : Option ℕ
  pub fallback_response_model : Option ℕ
  pub common_error_statuses : List ℕ
  pub include_synthetic_422 : Option Bool
  pub responses : Dict ℕ ℕ
  pub error_renderer : Option ℕ

abbrev pub is_error_status : ℕ → Bool
is_error_status n = leb 400 n && leb n 599

abbrev pub all_of {ℓ} : {A : Type ℓ} → (A → Bool) → Option A → Bool
all_of p none = true
all_of p (some a) = p a

-- The constructor, with its checks.
unfoldable pub post_init : TransportPolicy → Result TransportPolicy
post_init p =
    raise_if (not (all_of is_error_status p.validation_status))
      (value_error "transport policy validation_status must be between 400 and 599")
    >> raise_if (any (λ n. not (is_error_status n)) p.common_error_statuses)
        (value_error "transport policy common error statuses must be HTTP error codes")
    >> ok p

-- `TransportPolicy()`
abbrev pub default_policy : TransportPolicy
default_policy = record {
  dependencies = [];
  validation_status = none;
  validation_response_model = none;
  common_error_response_model = none;
  fallback_response_model = none;
  common_error_statuses = [];
  include_synthetic_422 = none;
  responses = [];
  error_renderer = none;
}

abbrev default_common_error_statuses : List ℕ
default_common_error_statuses = 400 ∷ 401 ∷ 403 ∷ 404 ∷ 409 ∷ 422 ∷ 500 ∷ 502 ∷ 503 ∷ []

-- `self.validation_status or 422`
unfoldable pub effective_validation_status : TransportPolicy → ℕ
effective_validation_status p = elim p.validation_status [
  | none ↦ 422
  | some n ↦ if nat_beq n 0 then 422 else n
]

unfoldable pub effective_include_synthetic_422 : TransportPolicy → Bool
effective_include_synthetic_422 p =
    get_or p.include_synthetic_422 (nat_beq (effective_validation_status p) 422)

abbrev pub or_statuses : List ℕ → List ℕ → List ℕ
or_statuses [] ys = ys
or_statuses (x ∷ xs) ys = x ∷ xs

unfoldable pub effective_common_error_statuses : TransportPolicy → List ℕ
effective_common_error_statuses p =
    or_statuses p.common_error_statuses default_common_error_statuses

-- The definition of a response: a mapping that was given, or the one that the policy builds.
pub data Definition : Type 0 where
  declared : ℕ → Definition
  built : String → Option ℕ → Definition

unfoldable pub set_defaults : List ℕ → Definition → Dict ℕ Definition → Dict ℕ Definition
set_defaults [] v d = d
set_defaults (k ∷ ks) v d = set_defaults ks v (set_default k v d)

abbrev pub add_common : TransportPolicy → Dict ℕ Definition → Dict ℕ Definition
add_common p d = elim p.common_error_response_model [
  | none ↦ d
  | some m ↦
      set_defaults (effective_common_error_statuses p) (built "Common error response" (some m)) d
]

abbrev pub add_fallback : TransportPolicy → Dict ℕ Definition → Dict ℕ Definition
add_fallback p d = elim p.fallback_response_model [
  | none ↦ d
  | some m ↦ set_default 500 (built "Fallback error response" (some m)) d
]

abbrev pub declare : Dict ℕ ℕ → Dict ℕ Definition
declare [] = []
declare ((k, v) ∷ d) = (k, declared v) ∷ declare d

unfoldable pub response_definitions : TransportPolicy → Dict ℕ Definition
response_definitions p = add_fallback p (
    add_common p (
      set_default (effective_validation_status p)
        (built "Request validation error" p.validation_response_model) (declare p.responses)))

-- The fields of `resolve`: the override's where it says something.
unfoldable pub merge : TransportPolicy → TransportPolicy → TransportPolicy
merge base override = record {
  dependencies = base.dependencies ++ override.dependencies;
  validation_status = or_else override.validation_status base.validation_status;
  validation_response_model =
      or_else override.validation_response_model base.validation_response_model;
  common_error_response_model =
      or_else override.common_error_response_model base.common_error_response_model;
  fallback_response_model = or_else override.fallback_response_model base.fallback_response_model;
  common_error_statuses = or_statuses override.common_error_statuses base.common_error_statuses;
  include_synthetic_422 = or_else override.include_synthetic_422 base.include_synthetic_422;
  responses = update base.responses override.responses;
  error_renderer = or_else override.error_renderer base.error_renderer;
}

unfoldable pub resolve : Option TransportPolicy → Option TransportPolicy → Result TransportPolicy
unfolding post_init merge
resolve base override =
    post_init (merge (get_or base default_policy) (get_or override default_policy))

-- The values of a field that are there, in the policies that have one.
unfoldable pub values_of {ℓ} :
    {V : Type ℓ} → (TransportPolicy → Option V) → List TransportPolicy → List V
values_of field [] = []
values_of field (p ∷ ps) = elim (field p) [
  | none ↦ values_of field ps
  | some v ↦ v ∷ values_of field ps
]

unfoldable pub check_field {ℓ} :
    {V : Type ℓ} ⦃e : Eq V⦄
    → String
    → (TransportPolicy → Option V)
    → List TransportPolicy
    → Result (Unit {0})
check_field name field policies =
    raise_if (ltb 1 (length (dedupe (values_of field policies))))
      (value_error ("transport policy field '" <> name <> "' conflicts across modules"))

-- An empty sequence or mapping does not count.
abbrev pub unless_empty {ℓ} : {A : Type ℓ} → List A → Option (List A)
unless_empty [] = none
unless_empty (x ∷ xs) = some (x ∷ xs)

-- `sorted(value.items(), key=…)`, whose keys are different
abbrev insert_item : ℕ × ℕ → Dict ℕ ℕ → Dict ℕ ℕ
insert_item p [] = p ∷ []
insert_item p (q ∷ d) = let rest = insert_item p d in if ltb p.0 q.0 then p ∷ q ∷ d else q ∷ rest

abbrev pub sorted_items : Dict ℕ ℕ → Dict ℕ ℕ
sorted_items [] = []
sorted_items (p ∷ d) = insert_item p (sorted_items d)

unfoldable pub validate_module_conflicts : List TransportPolicy → Result (Unit {0})
unfolding check_field
validate_module_conflicts policies =
    check_field "validation_status" (λ p. p.validation_status) policies
    >> check_field "validation_response_model" (λ p. p.validation_response_model) policies
    >> check_field "common_error_response_model" (λ p. p.common_error_response_model) policies
    >> check_field "fallback_response_model" (λ p. p.fallback_response_model) policies
    >> check_field "common_error_statuses" (λ p. unless_empty p.common_error_statuses) policies
    >> check_field "include_synthetic_422" (λ p. p.include_synthetic_422) policies
    >> check_field "responses" (λ p. unless_empty (sorted_items p.responses)) policies
    >> check_field "error_renderer" (λ p. p.error_renderer) policies
