-- ===== src/Testing/Contracts/Parts.antt =====
-- What each part of the assertions on a document comes to, without exceptions.
use mathlib.Core.Path.{fun_ext}
use fastapi_core.Prelude.{
  ℕ, String, string_eq, Bool, true, false, not, ◌&&◌, ◌≡◌, refl, ◌∙◌, ap, Option, none, some,
  is_some, inl, inr, ◌||◌, ◌⊎◌, List, [], ◌∷◌, all, any, contains, subset, arith, Option-cases,
}
use fastapi_core.Prelude.Int.{ℤ, int_eq, int_beq}
use fastapi_core.Text.Decimal.{str}
use fastapi_core.Dict.{get, has, keys}
use fastapi_core.Result.{Exn, Result, ok, err, is_ok, is_ok-for_each, check_that, ◌>>=◌}
use fastapi_core.Openapi.{Operation, Document}
use fastapi_core.Openapi.Documented.{operation_at}
use fastapi_core.Testing.Contracts.{
  Texts, index_operation, responses_of, response_codes, check_path, check_statuses,
  check_validation, is_false, invalid_literal, check_validation_response,
}

-- The operation is there and passes the test.
abbrev pub there_and : (Operation → Bool) → Option Operation → Bool
there_and p none = false
there_and p (some o) = p o

pub is_ok-check_that : (b : Bool) (m : String) → is_ok (check_that b m) ≡ b
is_ok-check_that true m = refl
is_ok-check_that false m = refl

pub all-ext {ℓ} :
    {A : Type ℓ} {f g : A → Bool} → ((x : A) → f x ≡ g x) → (xs : List A) → all f xs ≡ all g xs
all-ext h xs = ap (λ p. all p xs) (fun_ext h)

index_operation_lem :
    (d : Document) (path method : String) (f : Operation → Result (Unit {0}))
    → is_ok (index_operation d path method >>= f)
      ≡ there_and (λ o. is_ok (f o)) (operation_at d path method)
index_operation_lem d path method f = elim (Option-cases (get path d.paths)) [
  | inl absent ↦ rw absent refl
  | inr (operations, there) ↦ elim (Option-cases (get method operations)) [
    | inl absent ↦ rw (there, absent) refl
    | inr (o, found) ↦ rw (there, found) refl
  ]
]

module _ (texts : Texts) where
  -- The path is there, with the operations of all the methods.
  abbrev pub has_path : Document → String × List String → Bool
  has_path d (path, methods) =
      has path d.paths && all (λ m. is_some (operation_at d path (texts.lower m))) methods

  pub check_path_lem :
      (d : Document) (p : String × List String) → is_ok (check_path texts d p) ≡ has_path d p
  unfolding check_path
  check_path_lem d (path, methods) = elim (Option-cases (get path d.paths)) [
    | inl absent ↦ rw (absent, check_path) refl
    | inr (operations, there) ↦
        rw (there, check_path)
          (is_ok-for_each methods _
            ∙ all-ext (λ m. is_ok-check_that (has (texts.lower m) operations) _) methods)
  ]

  abbrev pub is_number : ℤ → Option ℤ → Bool
  is_number n none = false
  is_number n (some m) = int_beq n m

  -- The keys of the responses are numbers, and every status is one of them.
  abbrev pub has_statuses : List ℤ → List String → Bool
  has_statuses statuses codes =
      all (λ code. is_some (texts.to_int code)) codes
      && all (λ n. any (λ code. is_number n (texts.to_int code)) codes) statuses

  response_codes-cases :
      (codes : List String)
      → ((ns : List ℤ) × (response_codes texts codes ≡ ok ns)
          × (all (λ code. is_some (texts.to_int code)) codes ≡ true)
          × ((n : ℤ) → contains n ns ≡ any (λ code. is_number n (texts.to_int code)) codes))
        ⊎ ((e : Exn) × (response_codes texts codes ≡ err e)
            × (all (λ code. is_some (texts.to_int code)) codes ≡ false))
  unfolding response_codes
  response_codes-cases [] = inl ([], refl, refl, λ n. refl)
  response_codes-cases (code ∷ codes) = elim (Option-cases (texts.to_int code)) [
    | inl absent ↦ inr (invalid_literal, rw absent refl, rw absent refl)
    | inr (m, number) ↦ elim (response_codes-cases codes) [
      | inr (e, raised, bad) ↦ inr (e, rw (number, raised) refl, rw number bad)
      | inl (ns, read, good, members) ↦ inl (
        m ∷ ns,
        rw (number, read) refl,
        rw number good,
        λ n. rw number (ap (λ b. int_beq n m || b) (members n)),
      )
    ]
  ]

  check_codes_lem :
      (statuses : List ℤ) (codes : List String) (message : String)
      → is_ok (response_codes texts codes >>= λ ns. check_that (subset statuses ns) message)
        ≡ has_statuses statuses codes
  check_codes_lem statuses codes message = elim (response_codes-cases codes) [
    | inr (e, raised, bad) ↦ rw (raised, bad) refl
    | inl (ns, read, good, members) ↦
        rw (read, good) (is_ok-check_that (subset statuses ns) message ∙ all-ext members statuses)
  ]

  -- The operation is there with responses for the statuses.
  abbrev pub has_responses : Document → (String × String) × List ℤ → Bool
  has_responses d ((path, method), statuses) =
      there_and (λ o. has_statuses statuses (keys (responses_of o)))
        (operation_at d path (texts.lower method))

  there_and-ext :
      {p q : Operation → Bool}
      → ((o : Operation) → p o ≡ q o)
      → (o : Option Operation) → there_and p o ≡ there_and q o
  there_and-ext h none = refl
  there_and-ext h (some o) = h o

  pub check_statuses_lem :
      (d : Document) (r : (String × String) × List ℤ)
      → is_ok (check_statuses texts d r) ≡ has_responses d r
  unfolding check_statuses
  check_statuses_lem d ((path, method), statuses) =
      index_operation_lem d path (texts.lower method) _
      ∙ there_and-ext (λ o. check_codes_lem statuses (keys (responses_of o)) _)
          (operation_at d path (texts.lower method))

  -- The operations of a path are there, with the validation status among their responses, and
  -- without 422 where it is to be left out.
  abbrev pub has_validation : Document → ℕ → Option Bool → String × List String → Bool
  has_validation d status include_synthetic_422 (path, methods) =
      all
        (λ m.
          there_and
            (λ o.
              has (str status) (responses_of o)
              && not (is_false include_synthetic_422 && has "422" (responses_of o)))
            (operation_at d path (texts.lower m)))
        methods

  check_validation_response_lem :
      (status : ℕ) (include_synthetic_422 : Option Bool) (o : Operation)
      → is_ok (check_validation_response status include_synthetic_422 o) ≡ (
          has (str status) (responses_of o)
          && not (is_false include_synthetic_422 && has "422" (responses_of o)))
  check_validation_response_lem status none o = ground arith
  check_validation_response_lem status (some true) o = ground arith
  check_validation_response_lem status (some false) o = ground arith

  pub check_validation_lem :
      (d : Document) (status : ℕ) (include_synthetic_422 : Option Bool) (p : String × List String)
      → is_ok (check_validation texts d status include_synthetic_422 p)
        ≡ has_validation d status include_synthetic_422 p
  unfolding check_validation
  check_validation_lem d status include_synthetic_422 (path, methods) =
      is_ok-for_each methods _
      ∙ all-ext
          (λ m.
            index_operation_lem d path (texts.lower m) _
            ∙ there_and-ext (check_validation_response_lem status include_synthetic_422)
                (operation_at d path (texts.lower m)))
          methods
