-- ===== src/Openapi/Documented.antt =====
-- The responses that the document of an application has.
use fastapi_core.Prelude.{
  String, string_eq, pair_eq, true, false, not, ◌&&◌, Option, Option-cases, ap, sym, inl, inr, ◌∙◌,
  Bool-cases, none, some, or_else, is_some, List, [], ◌∷◌, ◌≡◌, refl, get_or, distinct, contains,
  map, eq_iff, if◌then◌else◌, arith,
}
use fastapi_core.Dict.{Dict, get, put, set_default}
use fastapi_core.Dict.Laws.{get-put, get-remove, get-set_default}
use fastapi_core.Text.Decimal.{str}
use fastapi_core.Json.{Json, text, object, end, member}
use fastapi_core.Transport.{
  TransportPolicy, effective_validation_status, effective_include_synthetic_422,
}
use fastapi_core.Openapi.{
  Document, Operation, document_responses, document_operation, document_policy, transport_openapi,
}

-- The operation of a path and a method in lower case.
abbrev pub operation_in : Option (Dict String Operation) → String → Option Operation
operation_in none m = none
operation_in (some operations) m = get m operations

abbrev pub operation_at : Document → String → String → Option Operation
operation_at d path m = operation_in (get path d.paths) m

abbrev response_of : Option Operation → String → Option Json
response_of none code = none
response_of (some o) code = get code (get_or o.responses [])

-- The definition of a response of an operation.
abbrev pub response_at : Document → String → String → String → Option Json
response_at d path m code = response_of (operation_at d path m) code

abbrev pub validation_error : Json
validation_error = object (member "description" (text "Request validation error") end)

-- What a policy makes of the definition that FastAPI gave.
abbrev pub documented : TransportPolicy → String → Option Json → Option Json
documented policy code given =
    if string_eq.beq "422" code && not (effective_include_synthetic_422 policy)
    then none
    else if string_eq.beq (str (effective_validation_status policy)) code
    then or_else given (some validation_error)
    else given

get-document_responses :
    (policy : TransportPolicy) (code : String) (responses : Dict String Json)
    → get code (document_responses policy responses) ≡ documented policy code (get code responses)
unfolding document_responses
get-document_responses policy code responses =
    let status = str (effective_validation_status policy) in
    ground (
      arith,
      get-remove "422" code (set_default status validation_error responses),
      get-set_default status code validation_error responses,
    )

abbrev pub map_option : (Operation → Operation) → Option Operation → Option Operation
map_option f none = none
map_option f (some o) = some (f o)

module _ (lower : String → String) where
  pub operation_at-document_policy :
      (method path : String) (policy : TransportPolicy) (d : Document) (p m : String)
      → operation_at (document_policy lower method path policy d) p m ≡ (
          if string_eq.beq path p && string_eq.beq (lower method) m
          then map_option (document_operation policy) (operation_at d p m)
          else operation_at d p m)
  unfolding document_policy
  operation_at-document_policy method path policy d p m = elim (Option-cases (get path d.paths)) [
    | inl absent ↦ ground (arith, eq_iff path p)
    | inr (operations, there) ↦ elim (Option-cases (get (lower method) operations)) [
      | inl absent ↦ ground (arith, eq_iff path p, eq_iff (lower method) m)
      | inr (o, found) ↦ ground (
        arith,
        eq_iff path p,
        eq_iff (lower method) m,
        get-put path p (put (lower method) (document_operation policy o) operations) d.paths,
        get-put (lower method) m (document_operation policy o) operations,
      )
    ]
  ]

  -- The policy that the loop meets for a path and a method in lower case.
  abbrev pub policy_for :
      Dict (String × String) TransportPolicy → String → String → Option TransportPolicy
  policy_for [] p m = none
  policy_for (((method, path), policy) ∷ policies) p m =
      if string_eq.beq path p && string_eq.beq (lower method) m
      then some policy
      else policy_for policies p m

  -- The operations that the policies are for.
  abbrev pub targets : Dict (String × String) TransportPolicy → List (String × String)
  targets policies = map (λ e. (e.0.1, lower e.0.0)) policies

  policy_for-absent :
      (policies : Dict (String × String) TransportPolicy) (p m : String)
      → contains (p, m) (targets policies) ≡ false
      → policy_for policies p m ≡ none
  policy_for-absent [] p m h = refl
  policy_for-absent (((method, path), policy) ∷ policies) p m h = ground (
    arith,
    eq_iff path p,
    eq_iff p path,
    eq_iff (lower method) m,
    eq_iff m (lower method),
    policy_for-absent policies p m,
  )

  abbrev pub apply_policy : Option TransportPolicy → Operation → Operation
  apply_policy none o = o
  apply_policy (some policy) o = document_operation policy o

  map_option_id : (o : Option Operation) → o ≡ map_option (λ o. o) o
  map_option_id none = refl
  map_option_id (some o) = refl

  policy_for-cons :
      (method path : String) (policy : TransportPolicy)
      (policies : Dict (String × String) TransportPolicy) (p m : String) (o : Option Operation)
      → contains (path, lower method) (targets policies) ≡ false
      → map_option (apply_policy (policy_for policies p m)) (
          if string_eq.beq path p && string_eq.beq (lower method) m
          then map_option (document_operation policy) o
          else o)
        ≡ map_option (apply_policy (policy_for (((method, path), policy) ∷ policies) p m)) o
  policy_for-cons method path policy policies p m none h = ground arith
  policy_for-cons method path policy policies p m (some o) h =
      elim (Bool-cases (string_eq.beq path p && string_eq.beq (lower method) m)) [
        | inl same ↦
            let absent : policy_for policies p m ≡ none = ground (
              arith,
              eq_iff path p,
              eq_iff (lower method) m,
              policy_for-absent policies path (lower method) h,
            ) in
            rw (same, absent) refl
        | inr other ↦ rw other refl
      ]

  operation_at-transport_openapi :
      (policies : Dict (String × String) TransportPolicy) (d : Document) (p m : String)
      → distinct (targets policies) ≡ true
      → operation_at (transport_openapi lower policies d) p m
        ≡ map_option (apply_policy (policy_for policies p m)) (operation_at d p m)
  unfolding transport_openapi
  operation_at-transport_openapi [] d p m h = map_option_id (operation_at d p m)
  operation_at-transport_openapi (((method, path), policy) ∷ policies) d p m h =
      operation_at-transport_openapi policies (document_policy lower method path policy d) p m
        (ground arith)
      ∙ rw (operation_at-document_policy method path policy d p m)
          (policy_for-cons method path policy policies p m (operation_at d p m) (ground arith))

  abbrev pub given_by : Option TransportPolicy → String → Option Json → Option Json
  given_by none code given = given
  given_by (some policy) code given = documented policy code given

  response_of-apply_policy :
      (policy : Option TransportPolicy) (o : Operation) (code : String)
      → response_of (some (apply_policy policy o)) code
        ≡ given_by policy code (response_of (some o) code)
  response_of-apply_policy none o code = refl
  response_of-apply_policy (some policy) o code =
      get-document_responses policy code (get_or o.responses [])

  response_of-policy :
      (policy : Option TransportPolicy) (o : Option Operation) (code : String)
      → response_of (map_option (apply_policy policy) o) code
        ≡ (if is_some o then given_by policy code (response_of o code) else none)
  response_of-policy policy none code = refl
  response_of-policy policy (some o) code = response_of-apply_policy policy o code

  given_by_idem :
      (policy : Option TransportPolicy) (code : String) (given : Option Json)
      → given_by policy code (given_by policy code given) ≡ given_by policy code given
  given_by_idem none code given = refl
  given_by_idem (some policy) code none = ground arith
  given_by_idem (some policy) code (some json) = ground arith

  response_of-policy_idem :
      (policy : Option TransportPolicy) (o : Option Operation) (code : String)
      → response_of (map_option (apply_policy policy) (map_option (apply_policy policy) o)) code
        ≡ response_of (map_option (apply_policy policy) o) code
  response_of-policy_idem policy none code = refl
  response_of-policy_idem policy (some o) code =
      response_of-apply_policy policy (apply_policy policy o) code
      ∙ ap (given_by policy code) (response_of-apply_policy policy o code)
      ∙ given_by_idem policy code (response_of (some o) code)
      ∙ sym (response_of-apply_policy policy o code)

  -- Where no two policies are for one operation: whatever the document that FastAPI generates, each
  -- operation has the responses that it gave, with the policy's validation status added if it is not there, and
  -- without 422 if the policy leaves that out; and doing it again, as FastAPI's stored document is
  -- changed in place, changes no response.
  pub transport_openapi-documents :
      (policies : Dict (String × String) TransportPolicy) (d : Document) (p m code : String)
      → distinct (targets policies) ≡ true
      → let d' = transport_openapi lower policies d in
        (response_at d' p m code ≡ (
          if is_some (operation_at d p m)
          then given_by (policy_for policies p m) code (response_at d p m code)
          else none))
        × (response_at (transport_openapi lower policies d') p m code ≡ response_at d' p m code)
  transport_openapi-documents policies d p m code h =
      let once = operation_at-transport_openapi policies d p m h in
      let twice =
        operation_at-transport_openapi policies (transport_openapi lower policies d) p m h
        ∙ ap (map_option (apply_policy (policy_for policies p m))) once in
      (
        ap (λ o. response_of o code) once
            ∙ response_of-policy (policy_for policies p m) (operation_at d p m) code,
        ap (λ o. response_of o code) twice
            ∙ response_of-policy_idem (policy_for policies p m) (operation_at d p m) code
            ∙ ap (λ o. response_of o code) (sym once),
      )
