-- ===== src/Readiness/Merge.antt =====
-- Nested results take the place of their parent's status, and hide no failure.
use fastapi_core.Prelude.{
  String, string_eq, Bool, true, not, ◌&&◌, ◌≡◌, refl, ◌∙◌, List, [], ◌∷◌, map, some, Option-cases,
  inl, inr, All, all, any, all-append, any-append, arith,
}
use fastapi_core.Dict.{Dict, get}
use fastapi_core.Docmesh.{ServiceHealthStatus, HealthCheckResult}
use fastapi_core.Readiness.{
  structured_service, structured_result, expand, merge_services, merge_structured_results,
}
use fastapi_core.Readiness.Run.{is_failure}

abbrev pub is_good : ServiceHealthStatus → Bool
is_good s = s.ok

-- A nested result, as `structured_result` makes it for a parent with this flag.
pub record IsNested (required : Bool) (n : HealthCheckResult) : Type 0 where
  pub good : n.ok ≡ true → all is_good n.services ≡ true
  pub flags : All (λ c. c.required ≡ required) n.services

-- The nested result under a service's name, if there is one, has the service's own verdict.
abbrev pub Agrees : Dict String HealthCheckResult → ServiceHealthStatus → Type 0
Agrees structured s =
    (n : HealthCheckResult)
    → get s.service structured ≡ some n
    → (n.ok ≡ s.ok) × IsNested s.required n

pub structured_result-IsNested :
    (parent : String) (required : Bool) (result : HealthCheckResult)
    → IsNested required (structured_result parent result required)
unfolding structured_result
structured_result-IsNested parent required result = record {
  good = λ h. ground arith;
  flags = marked result.services;
}
  where
    marked :
        (ss : List ServiceHealthStatus)
        → All (λ c. c.required ≡ required) (map (structured_service parent required) ss)
    marked [] = tt
    marked (s ∷ ss) = (refl, marked ss)

-- With one flag on all, some required service fails exactly if the flag is set and some fails.
any-is_failure :
    (required : Bool) (ss : List ServiceHealthStatus)
    → All (λ c. c.required ≡ required) ss
    → any is_failure ss ≡ (required && not (all is_good ss))
any-is_failure required [] h = ground arith
any-is_failure required (s ∷ ss) h = ground (arith, any-is_failure required ss h.1)

module _ (structured : Dict String HealthCheckResult) where
  expand-ok :
      (s : ServiceHealthStatus) → Agrees structured s → all is_good (expand structured s) ≡ s.ok
  unfolding expand
  expand-ok s h = elim (Option-cases (get s.service structured)) [
    | inl absent ↦ ground arith
    | inr (n, found) ↦ let (verdict, nested) = h n found in ground (arith, nested.good)
  ]

  expand-is_failure :
      (s : ServiceHealthStatus)
      → Agrees structured s
      → any is_failure (expand structured s) ≡ is_failure s
  unfolding expand
  expand-is_failure s h = elim (Option-cases (get s.service structured)) [
    | inl absent ↦ ground arith
    | inr (n, found) ↦
        let (verdict, nested) = h n found in
        ground (arith, nested.good, any-is_failure s.required n.services nested.flags)
  ]

  merge_services-ok :
      (ss : List ServiceHealthStatus)
      → All (Agrees structured) ss
      → all is_good (merge_services structured ss) ≡ all is_good ss
  unfolding merge_services
  merge_services-ok [] h = refl
  merge_services-ok (s ∷ ss) h =
      all-append is_good (expand structured s) (merge_services structured ss)
      ∙ ground (arith, expand-ok s h.0, merge_services-ok ss h.1)

  pub merge_services-is_failure :
      (ss : List ServiceHealthStatus)
      → All (Agrees structured) ss
      → any is_failure (merge_services structured ss) ≡ any is_failure ss
  unfolding merge_services
  merge_services-is_failure [] h = refl
  merge_services-is_failure (s ∷ ss) h =
      any-append is_failure (expand structured s) (merge_services structured ss)
      ∙ ground (arith, expand-is_failure s h.0, merge_services-is_failure ss h.1)

-- Where the nested results agree with the statuses, the merged result is good exactly if every
-- status was, and has a failed required service exactly if there was one.
pub merge_structured_results_verdict :
    (result : HealthCheckResult) (structured : Dict String HealthCheckResult)
    → All (Agrees structured) result.services
    → let merged = merge_structured_results result structured in
      (merged.ok ≡ all is_good result.services)
      × (any is_failure merged.services ≡ any is_failure result.services)
unfolding merge_structured_results
merge_structured_results_verdict result structured h =
    (merge_services-ok structured _ h, merge_services-is_failure structured _ h)
