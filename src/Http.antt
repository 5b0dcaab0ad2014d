-- ===== src/Http.antt =====
-- fastapi_core/http.py: errors as responses, and the middleware. This module has the mappings from
-- exceptions to errors. A class is a number; its `mro` is Python's. A mapper is what it answers.
pub mod Table
pub mod Render
pub mod Redaction
pub mod Handlers
pub mod Documented
pub mod Correlation
pub mod AccessLog
use fastapi_core.Prelude.{
  ℕ, String, Bool, true, false, not, ◌&&◌, ◌||◌, Option, none, some, is_some, List, [], ◌∷◌, all,
  or_else, nat_eq, if◌then◌else◌,
}
use fastapi_core.Text.{◌<>◌}
use fastapi_core.Dict.{Dict, get, has, put, values, keys}
use fastapi_core.Result.{Result, ok, err, type_error, value_error, raise_if, ◌>>=◌, ◌>>◌}

pub record ErrorMapping : Type 0 where
  pub status_code : ℕ
  pub detail : String
  pub title : Option String
  pub type_uri : String
  pub headers : Option (Dict String String)
  pub code : Option String
  -- values that the program only hands on
  pub extensions : Option (Dict String ℕ)

-- `ErrorMapping(status_code=…, detail=…, headers=…)`
abbrev pub plain_mapping : ℕ → String → Option (Dict String String) → ErrorMapping
plain_mapping status detail headers = record {
  status_code = status;
  detail = detail;
  title = none;
  type_uri = "about:blank";
  headers = headers;
  code = none;
  extensions = none;
}

-- A value of the table: a mapping, a callable by its identity, or something else.
pub data ErrorMappingValue : Type 0 where
  mapping : ErrorMapping → ErrorMappingValue
  mapper : ℕ → ErrorMappingValue
  invalid : ErrorMappingValue

pub record ExceptionMappingTable : Type 0 where
  pub mappings : Dict ℕ ErrorMappingValue
  pub fallback : Option ErrorMappingValue

-- The classes: which numbers are subclasses of `Exception`, which is `Exception`, names and orders;
-- and what a callable gives for an exception: an error mapping, or something else.
pub record Classes : Type 0 where
  pub is_exception_type : ℕ → Bool
  pub exception : ℕ
  pub name : ℕ → String
  pub mro : ℕ → List ℕ
  pub call : ℕ → ℕ → Result (Option ErrorMapping)

abbrev pub is_valid_value : ErrorMappingValue → Bool
is_valid_value invalid = false
is_valid_value _ = true

abbrev pub is_valid_fallback : Option ErrorMappingValue → Bool
is_valid_fallback none = true
is_valid_fallback (some v) = is_valid_value v

module _ (classes : Classes) where
  unfoldable pub check_mappings : Dict ℕ ErrorMappingValue → Result (Unit {0})
  check_mappings [] = ok tt
  check_mappings ((c, v) ∷ d) =
      raise_if (not (classes.is_exception_type c))
        (type_error "exception mapping keys must be Exception types")
      >> raise_if (not (is_valid_value v))
          (type_error "exception mapping values must be ErrorMapping or callable")
      >> check_mappings d

  unfoldable pub post_init : ExceptionMappingTable → Result ExceptionMappingTable
  unfolding check_mappings
  post_init table =
      check_mappings table.mappings
      >> raise_if (not (is_valid_fallback table.fallback))
          (type_error "exception mapping fallback must be ErrorMapping or callable")
      >> raise_if (is_some table.fallback && has classes.exception table.mappings)
          (value_error "exception mapping fallback is unreachable when Exception is mapped")
      >> ok table

  unfoldable pub add_specs :
      List (ℕ × ErrorMappingValue) → Dict ℕ ErrorMappingValue → Result (Dict ℕ ErrorMappingValue)
  add_specs [] d = ok d
  add_specs ((c, v) ∷ specs) d =
      raise_if (has c d)
        (value_error ("exception mapping for '" <> classes.name c <> "' is already registered"))
      >> add_specs specs (put c v d)

  unfoldable pub from_specs :
      List (ℕ × ErrorMappingValue) → Option ErrorMappingValue → Result ExceptionMappingTable
  unfolding add_specs post_init
  from_specs specs fallback = do
    mappings ← add_specs specs []
    post_init (record { mappings = mappings; fallback = fallback })

  -- The loop over the classes of an exception, most special first.
  unfoldable pub first_mapped : List ℕ → Dict ℕ ErrorMappingValue → Option ErrorMappingValue
  first_mapped [] d = none
  first_mapped (c ∷ cs) d = or_else (get c d) (first_mapped cs d)

  abbrev as_mapping : Option ErrorMapping → Result (Option ErrorMapping)
  as_mapping none = err (type_error "exception mapping callable must return ErrorMapping")
  as_mapping (some m) = ok (some m)

  unfoldable pub apply_value : Option ErrorMappingValue → ℕ → Result (Option ErrorMapping)
  apply_value none c = ok none
  apply_value (some (mapping m)) c = ok (some m)
  apply_value (some (mapper f)) c = do result ← classes.call f c; as_mapping result
  apply_value (some invalid) c = err (type_error "object is not callable")

  -- For an exception of class `c`.
  unfoldable pub resolve : ExceptionMappingTable → ℕ → Result (Option ErrorMapping)
  unfolding first_mapped apply_value
  resolve table c =
      apply_value (or_else (first_mapped (classes.mro c) table.mappings) table.fallback) c
