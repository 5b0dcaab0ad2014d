-- ===== src/Testing/Contracts/Conforming.antt =====
-- When a document passes.
use fastapi_core.Prelude.{
  ℕ, string_eq, Bool, true, ◌&&◌, ◌≡◌, ◌↔◌, refl, ◌∙◌, Option, none, some, all, distinct,
  length-dedupe, arith,
}
use fastapi_core.Prelude.Int.{int_eq}
use fastapi_core.Dict.{has, values}
use fastapi_core.Json.{Json}
use fastapi_core.Result.{ok, is_ok, is_ok-then, is_ok-for_each, is_ok_iff}
use fastapi_core.Openapi.{Document, document_json}
use fastapi_core.Testing.Contracts.{
  Texts, OpenapiExpectation, check_validation_status, operation_ids, validate_references,
  assert_openapi_contract,
}
use fastapi_core.Testing.Contracts.References.{Within, is_resolved, validate_references_iff}
use fastapi_core.Testing.Contracts.Parts.{
  is_ok-check_that, all-ext, has_path, check_path_lem, has_responses, check_statuses_lem,
  has_validation, check_validation_lem,
}

module _ (texts : Texts) where
  abbrev has_validation_status : Document → OpenapiExpectation → Option ℕ → Bool
  has_validation_status d e none = true
  has_validation_status d e (some status) =
      all (has_validation texts d status e.include_synthetic_422) e.expected_paths

  pub record Conforms (d : Document) (e : OpenapiExpectation) : Type 0 where
    pub paths : all (has_path texts d) e.expected_paths ≡ true
    pub responses : all (has_responses texts d) e.expected_responses ≡ true
    pub validation : has_validation_status d e e.validation_status ≡ true
    pub ids : distinct (operation_ids texts (values d.paths)) ≡ true
    pub schemes : all (λ name. has name d.security_schemes) e.expected_security_schemes ≡ true
    pub references : (u : Json) → Within u (document_json d) → is_resolved d.schemas u ≡ true

  check_validation_status_lem :
      (d : Document) (e : OpenapiExpectation) (status : Option ℕ)
      → is_ok (check_validation_status texts d e status) ≡ has_validation_status d e status
  check_validation_status_lem d e none = refl
  check_validation_status_lem d e (some status) =
      is_ok-for_each e.expected_paths _
      ∙ all-ext (check_validation_lem texts d status e.include_synthetic_422) e.expected_paths

  is_ok-assert_openapi_contract :
      (d : Document) (e : OpenapiExpectation)
      → is_ok (assert_openapi_contract texts d e) ≡ (
          all (has_path texts d) e.expected_paths
          && (all (has_responses texts d) e.expected_responses
              && (has_validation_status d e e.validation_status
                  && (distinct (operation_ids texts (values d.paths))
                      && (all (λ name. has name d.security_schemes) e.expected_security_schemes
                          && is_ok (validate_references d.schemas (document_json d)))))))
  unfolding assert_openapi_contract
  is_ok-assert_openapi_contract d e =
      let ids = operation_ids texts (values d.paths) in
      is_ok-then _ _
        (is_ok-for_each e.expected_paths _ ∙ all-ext (check_path_lem texts d) e.expected_paths)
        (is_ok-then _ _
          (is_ok-for_each e.expected_responses _
            ∙ all-ext (check_statuses_lem texts d) e.expected_responses)
          (is_ok-then _ _ (check_validation_status_lem d e e.validation_status) (
            is_ok-then _ _ (is_ok-check_that _ _ ∙ length-dedupe ids) (
              is_ok-then _ _
                (is_ok-for_each e.expected_security_schemes _
                  ∙ all-ext (λ name. is_ok-check_that (has name d.security_schemes) _)
                      e.expected_security_schemes)
                refl))))

  pub assert_openapi_contract_iff :
      (d : Document) (e : OpenapiExpectation)
      → (assert_openapi_contract texts d e ≡ ok tt) ↔ Conforms d e
  assert_openapi_contract_iff d e =
      let whole = is_ok-assert_openapi_contract d e in
      let references = validate_references_iff d.schemas (document_json d) in
      let outcome = is_ok_iff (validate_references d.schemas (document_json d)) in
      (
        λ h.
            let passed = (is_ok_iff (assert_openapi_contract texts d e)).1 h in
            record {
              paths = ground arith;
              responses = ground arith;
              validation = ground arith;
              ids = ground arith;
              schemes = ground arith;
              references = references.0 (outcome.0 (ground arith));
            },
        λ c.
            let resolved = outcome.1 (references.1 c.references) in
            (is_ok_iff (assert_openapi_contract texts d e)).0
              (whole ∙ rw (c.paths, c.responses, c.validation, c.ids, c.schemes) resolved),
      )
