-- ===== src/Transport/Conflicts.antt =====
-- When the policies of several modules conflict.
use fastapi_core.Prelude.{
  String, Bool, true, false, ◌≡◌, refl, sym, ◌∙◌, ◌↔◌, Option, none, some, List, [], ◌∷◌, any,
  distinct, ◌&&◌, length, ltb, contains, arith, Eq, nat_eq, list_eq, bool_eq, pair_eq, Option-cases,
  inl, inr, contains-dedupe, distinct-dedupe, dedupe,
}
use fastapi_core.Result.{Result, ok, err, is_ok, ◌>>◌}
use fastapi_core.Transport.{
  TransportPolicy, values_of, check_field, unless_empty, sorted_items, validate_module_conflicts,
}

module _ {ℓ} {A : Type ℓ} ⦃e : Eq A⦄ where
  single :
      (xs : List A)
      → distinct xs ≡ true
      → ltb 1 (length xs) ≡ false
      → (a b : A) → contains a xs ≡ true
      → contains b xs ≡ true
      → a ≡ b
  single [] d h a b m n = cc
  single (x ∷ []) d h a b m n = ground (arith, e.beq_iff a x, e.beq_iff b x)
  single (x ∷ y ∷ xs) d h a b m n = ground arith

  several :
      (xs : List A)
      → distinct xs ≡ true
      → ((a b : A) → contains a xs ≡ true → contains b xs ≡ true → a ≡ b)
      → ltb 1 (length xs) ≡ false
  several [] d h = refl
  several (x ∷ []) d h = refl
  several (x ∷ y ∷ xs) d h = ground (arith, h x y, e.beq_iff x x, e.beq_iff y y, e.beq_iff x y)

-- A value that is set for a field in some policy.
abbrev is_set {ℓ} : {V : Type ℓ} ⦃e : Eq V⦄ → V → Option V → Bool
is_set v none = false
is_set ⦃e⦄ v (some w) = e.beq v w

-- No two policies set a field to different values.
abbrev pub Agree {ℓ} :
    {V : Type ℓ} ⦃e : Eq V⦄ → (TransportPolicy → Option V) → List TransportPolicy → Type ℓ
Agree {V = V} field policies =
    (v w : V)
    → any (λ p. is_set v (field p)) policies ≡ true
    → any (λ p. is_set w (field p)) policies ≡ true
    → v ≡ w

module _ {ℓ} {V : Type ℓ} ⦃e : Eq V⦄ (field : TransportPolicy → Option V) where
  contains-values_of :
      (v : V) (ps : List TransportPolicy)
      → contains v (values_of field ps) ≡ any (λ p. is_set v (field p)) ps
  unfolding values_of
  contains-values_of v [] = refl
  contains-values_of v (p ∷ ps) = elim (Option-cases (field p)) [
    | inl absent ↦ ground (arith, contains-values_of v ps)
    | inr (w, found) ↦ ground (arith, contains-values_of v ps)
  ]

  check_field_iff :
      (name : String) (ps : List TransportPolicy)
      → (is_ok (check_field name field ps) ≡ true) ↔ Agree field ps
  unfolding check_field
  check_field_iff name ps =
      let values = dedupe (values_of field ps) in
      let listed : (v : V) → contains v values ≡ any (λ p. is_set v (field p)) ps =
        λ v. contains-dedupe v (values_of field ps) ∙ contains-values_of v ps in
      (
        (λ h v w m n.
            single values (distinct-dedupe (values_of field ps)) (ground arith) v w (listed v ∙ m)
              (listed w ∙ n)),
        (λ h. ground (
          arith,
          several values (distinct-dedupe (values_of field ps))
              (λ v w m n. h v w (sym (listed v) ∙ m) (sym (listed w) ∙ n)),
        )),
      )

-- No two policies say different things, for any of the fields.
pub record NoConflict (ps : List TransportPolicy) : Type 0 where
  pub validation_status : Agree (λ p. p.validation_status) ps
  pub validation_response_model : Agree (λ p. p.validation_response_model) ps
  pub common_error_response_model : Agree (λ p. p.common_error_response_model) ps
  pub fallback_response_model : Agree (λ p. p.fallback_response_model) ps
  pub common_error_statuses : Agree (λ p. unless_empty p.common_error_statuses) ps
  pub include_synthetic_422 : Agree (λ p. p.include_synthetic_422) ps
  pub responses : Agree (λ p. unless_empty (sorted_items p.responses)) ps
  pub error_renderer : Agree (λ p. p.error_renderer) ps

chain :
    (a b c d e f g h : Result (Unit {0}))
    → is_ok (a >> b >> c >> d >> e >> f >> g >> h)
      ≡ (is_ok a && is_ok b && is_ok c && is_ok d && is_ok e && is_ok f && is_ok g && is_ok h)
chain (err x) b c d e f g h = refl
chain (ok _) (err x) c d e f g h = refl
chain (ok _) (ok _) (err x) d e f g h = refl
chain (ok _) (ok _) (ok _) (err x) e f g h = refl
chain (ok _) (ok _) (ok _) (ok _) (err x) f g h = refl
chain (ok _) (ok _) (ok _) (ok _) (ok _) (err x) g h = refl
chain (ok _) (ok _) (ok _) (ok _) (ok _) (ok _) (err x) h = refl
chain (ok _) (ok _) (ok _) (ok _) (ok _) (ok _) (ok _) (err x) = refl
chain (ok _) (ok _) (ok _) (ok _) (ok _) (ok _) (ok _) (ok _) = refl

parts :
    (ps : List TransportPolicy)
    → is_ok (validate_module_conflicts ps) ≡ (
        is_ok (check_field "validation_status" (λ p. p.validation_status) ps)
        && is_ok (check_field "validation_response_model" (λ p. p.validation_response_model) ps)
        && is_ok (check_field "common_error_response_model" (λ p. p.common_error_response_model) ps)
        && is_ok (check_field "fallback_response_model" (λ p. p.fallback_response_model) ps)
        && is_ok
            (check_field "common_error_statuses" (λ p. unless_empty p.common_error_statuses) ps)
        && is_ok (check_field "include_synthetic_422" (λ p. p.include_synthetic_422) ps)
        && is_ok (check_field "responses" (λ p. unless_empty (sorted_items p.responses)) ps)
        && is_ok (check_field "error_renderer" (λ p. p.error_renderer) ps))
unfolding validate_module_conflicts
parts ps = chain _ _ _ _ _ _ _ _

-- The policies of the modules are accepted if and only if no two of them set one field to
-- different values.
pub validate_module_conflicts_iff :
    (ps : List TransportPolicy) → (is_ok (validate_module_conflicts ps) ≡ true) ↔ NoConflict ps
validate_module_conflicts_iff ps =
    let i_validation_status = check_field_iff (λ p. p.validation_status) "validation_status" ps in
    let i_validation_response_model =
      check_field_iff (λ p. p.validation_response_model) "validation_response_model" ps in
    let i_common_error_response_model =
      check_field_iff (λ p. p.common_error_response_model) "common_error_response_model" ps in
    let i_fallback_response_model =
      check_field_iff (λ p. p.fallback_response_model) "fallback_response_model" ps in
    let i_common_error_statuses =
      check_field_iff (λ p. unless_empty p.common_error_statuses) "common_error_statuses" ps in
    let i_include_synthetic_422 =
      check_field_iff (λ p. p.include_synthetic_422) "include_synthetic_422" ps in
    let i_responses =
      check_field_iff (λ p. unless_empty (sorted_items p.responses)) "responses" ps in
    let i_error_renderer = check_field_iff (λ p. p.error_renderer) "error_renderer" ps in
    (
      (λ h. record {
        validation_status = i_validation_status.0 (ground (arith, parts ps));
        validation_response_model = i_validation_response_model.0 (ground (arith, parts ps));
        common_error_response_model = i_common_error_response_model.0 (ground (arith, parts ps));
        fallback_response_model = i_fallback_response_model.0 (ground (arith, parts ps));
        common_error_statuses = i_common_error_statuses.0 (ground (arith, parts ps));
        include_synthetic_422 = i_include_synthetic_422.0 (ground (arith, parts ps));
        responses = i_responses.0 (ground (arith, parts ps));
        error_renderer = i_error_renderer.0 (ground (arith, parts ps));
      }),
      (λ c. ground (
        arith,
        parts ps,
        i_validation_status.1 c.validation_status,
        i_validation_response_model.1 c.validation_response_model,
        i_common_error_response_model.1 c.common_error_response_model,
        i_fallback_response_model.1 c.fallback_response_model,
        i_common_error_statuses.1 c.common_error_statuses,
        i_include_synthetic_422.1 c.include_synthetic_422,
        i_responses.1 c.responses,
        i_error_renderer.1 c.error_renderer,
      )),
    )
