-- ===== src/Result.antt =====
-- Exceptions as values. A message is the text that the program formats.
use fastapi_core.Prelude.{
  ℕ, String, List, [], ◌∷◌, Bool, true, false, ◌&&◌, ◌≡◌, refl, ◌⊎◌, inl, inr, ap, ◌∙◌, ◌↔◌, all,
}
use fastapi_core.Docmesh.{ServiceHealthStatus, HealthCheckResult}

mutual
  pub data Exn : Type 0 where
    value_error type_error key_error attribute_error runtime_error assertion_error : String → Exn
    http_exception : ℕ → String → List (String × String) → Exn
    health_check_error : ServiceHealthStatus → HealthCheckResult → Exn
    timeout_error cancelled : Exn
    -- `ServiceCloseError`, with the number of its failures
    close_error : ℕ → Exn
    -- any other subclass of `Exception`, by its class and identity
    foreign : ℕ → ℕ → Exn
    -- any other `BaseException`, such as `KeyboardInterrupt`
    exit : ℕ → Exn
    -- `BaseExceptionGroup(message, failures)`
    group : String → Exns → Exn
    -- `exc.add_note(prefix + str(other))`
    noted : Exn → String → Exn → Exn

  pub data Exns : Type 0 where
    nil : Exns
    cons : Exn → Exns → Exns

abbrev pub to_exns : List Exn → Exns
to_exns [] = nil
to_exns (e ∷ es) = cons e (to_exns es)

mutual
  -- `isinstance(exc, Exception)`; a group is one if all its members are.
  pub is_exception : Exn → Bool
  is_exception cancelled = false
  is_exception (exit n) = false
  is_exception (noted e s o) = is_exception e
  is_exception (group m es) = are_exceptions es
  is_exception _ = true

  pub are_exceptions : Exns → Bool
  are_exceptions nil = true
  are_exceptions (cons e es) = is_exception e && are_exceptions es

pub data Result {ℓ} (A : Type ℓ) : Type ℓ where
  ok : A → Result A
  err : Exn → Result A

-- `if test: raise exn`
abbrev pub raise_if : Bool → Exn → Result (Unit {0})
raise_if true e = err e
raise_if false e = ok tt

infixl 5 ◌>>=◌
abbrev pub ◌>>=◌ {ℓ κ} : {A : Type ℓ} {B : Type κ} → Result A → (A → Result B) → Result B
ok x >>= next = next x
err exn >>= next = err exn

infixl 5 ◌>>◌
abbrev pub ◌>>◌ {ℓ} : {B : Type ℓ} → Result (Unit {0}) → Result B → Result B
first >> next = first >>= λ _. next

-- `assert test, message`
abbrev pub check_that : Bool → String → Result (Unit {0})
check_that true message = ok tt
check_that false message = err (assertion_error message)

-- `for x in xs: f(x)`
unfoldable pub for_each {ℓ} : {A : Type ℓ} → List A → (A → Result (Unit {0})) → Result (Unit {0})
for_each [] f = ok tt
for_each (x ∷ xs) f = f x >> for_each xs f

abbrev pub is_ok {ℓ} : {A : Type ℓ} → Result A → Bool
is_ok (ok a) = true
is_ok (err e) = false

pub Result-cases {ℓ} :
    {A : Type ℓ} (r : Result A) → ((a : A) × (r ≡ ok a)) ⊎ ((e : Exn) × (r ≡ err e))
Result-cases (ok a) = inl (a, refl)
Result-cases (err e) = inr (e, refl)

pub >>=-eq-ok {ℓ κ} :
    {A : Type ℓ} {B : Type κ} (first : Result A) (next : A → Result B) {value : B}
    → (first >>= next) ≡ ok value
    → (a : A) × (first ≡ ok a) × (next a ≡ ok value)
>>=-eq-ok (ok x) next h = (x, refl, h)
>>=-eq-ok (err exn) next h = cc

is_ok->> {ℓ} :
    {B : Type ℓ} (first : Result (Unit {0})) (next : Result B)
    → is_ok (first >> next) ≡ (is_ok first && is_ok next)
is_ok->> (ok u) next = refl
is_ok->> (err e) next = refl

pub is_ok-then {ℓ} :
    {B : Type ℓ} (first : Result (Unit {0})) (next : Result B) {b c : Bool}
    → is_ok first ≡ b
    → is_ok next ≡ c
    → is_ok (first >> next) ≡ (b && c)
is_ok-then first next h k = is_ok->> first next ∙ rw (h, k) refl

pub is_ok-for_each {ℓ} :
    {A : Type ℓ} (xs : List A) (f : A → Result (Unit {0}))
    → is_ok (for_each xs f) ≡ all (λ x. is_ok (f x)) xs
unfolding for_each
is_ok-for_each [] f = refl
is_ok-for_each (x ∷ xs) f =
    is_ok->> (f x) (for_each xs f) ∙ ap (λ b. is_ok (f x) && b) (is_ok-for_each xs f)

-- What raises nothing returns nothing else.
pub is_ok_iff : (r : Result (Unit {0})) → (is_ok r ≡ true) ↔ (r ≡ ok tt)
is_ok_iff (ok tt) = (λ h. refl, λ h. refl)
is_ok_iff (err e) = (λ h. cc, λ h. cc)
