-- ===== src/HealthRouter/Report.antt =====
-- What the readiness endpoint says of the services that were checked.
use mathlib.Core.Path.{subst}
use fastapi_core.Prelude.{
  String, Bool, true, false, not, ◌&&◌, ◌||◌, ◌≡◌, refl, inl, inr, some, List, [], ◌∷◌, ◌++◌, any,
  any-append, all, All, Bool-cases, get_or, if◌then◌else◌, is_empty, arith, string_eq,
}
use fastapi_core.Dict.{Dict, put}
use fastapi_core.Docmesh.{ServiceHealthStatus}
use fastapi_core.Result.{ok, err, is_ok, Result-cases}
use fastapi_core.Store.{ReadinessCheckSpec, ReadinessRegistry}
use fastapi_core.Readiness.{resolve_spec}
use fastapi_core.HealthRouter.{
  HealthServiceDetail, HealthStatus, ok_status, degraded, error_status, Named, Response, detail_of,
  readiness_error, collect, status_text, report,
}

-- Whether the registry knows a service, and whether its check is required or redacted.
abbrev pub holds : (ReadinessCheckSpec → Bool) → ReadinessRegistry → String → Bool
holds p registry name = elim (resolve_spec name registry) [ ok spec ↦ p spec | err e ↦ false ]

-- A required service that is not ok.
abbrev pub is_outage : ReadinessRegistry → ServiceHealthStatus → Bool
is_outage registry s = not s.ok && holds (λ spec. spec.required) registry s.service

-- Where a failure's text is redacted, the text that is shown says nothing.
abbrev pub IsRedacted : ReadinessRegistry → Named → Type 0
IsRedacted registry (name, detail) =
    (if not detail.ok && holds (λ spec. spec.redact_errors) registry name
      then detail.error
      else some "readiness check failed")
    ≡ some "readiness check failed"

record DetailOf (registry : ReadinessRegistry) (s : ServiceHealthStatus) (d : HealthServiceDetail)
    : Type 0 where
  same : d.ok ≡ s.ok
  required : d.required ≡ holds (λ spec. spec.required) registry s.service
  redacted : IsRedacted registry (s.service, d)

detail_of_lem :
    (registry : ReadinessRegistry) (s : ServiceHealthStatus) (d : HealthServiceDetail)
    → detail_of registry s ≡ ok d
    → DetailOf registry s d
unfolding detail_of readiness_error
detail_of_lem registry s d h = elim (Result-cases (resolve_spec s.service registry)) [
  | inr (e, e≡) ↦ ground arith
  | inl (spec, e) ↦ elim (Bool-cases s.ok) [
    | inl good ↦ record { same = ground arith; required = ground arith; redacted = ground arith }
    | inr bad ↦ record { same = ground arith; required = ground arith; redacted = ground arith }
  ]
]

record Collected (registry : ReadinessRegistry) (ss : List ServiceHealthStatus)
    (details : Dict String HealthServiceDetail) (failures : List Named)
    (out : Dict String HealthServiceDetail × List Named) : Type 0 where
  flagged :
      any (λ p. p.1.required) out.1
      ≡ (any (λ p. p.1.required) failures || any (is_outage registry) ss)
  listed : is_empty out.1 ≡ (is_empty failures && all (λ s. s.ok) ss)
  redacted : All (IsRedacted registry) details → All (IsRedacted registry) out.0

All-put :
    (registry : ReadinessRegistry) (name : String) (d : HealthServiceDetail)
    (details : Dict String HealthServiceDetail)
    → IsRedacted registry (name, d)
    → All (IsRedacted registry) details
    → All (IsRedacted registry) (put name d details)
unfolding put
All-put registry name d [] h hs = (h, hs)
All-put registry name d ((k, v) ∷ details) h hs = elim (Bool-cases (string_eq.beq k name)) [
  | inl same ↦ rw same (rw ((string_eq.beq_iff k name).0 same) h, hs.1)
  | inr other ↦ rw other (hs.0, All-put registry name d details h hs.1)
]

is_empty-append : (xs : List Named) (x : Named) → is_empty (xs ++ x ∷ []) ≡ false
is_empty-append [] x = refl
is_empty-append (y ∷ xs) x = refl

collect_lem :
    (registry : ReadinessRegistry) (ss : List ServiceHealthStatus)
    (details : Dict String HealthServiceDetail) (failures : List Named)
    (out : Dict String HealthServiceDetail × List Named)
    → collect registry ss details failures ≡ ok out
    → Collected registry ss details failures out
unfolding collect
collect_lem registry [] details failures out h = record {
  flagged = ground arith;
  listed = ground arith;
  redacted = subst (All (IsRedacted registry)) (ground arith);
}
collect_lem registry (s ∷ ss) details failures out h = elim (Result-cases (detail_of registry s)) [
  | inr (e, raised) ↦ ground arith
  | inl (d, e) ↦
      let step = detail_of_lem registry s d e in
      elim (Bool-cases d.ok) [
        | inl good ↦
            let rest =
              collect_lem registry ss (put s.service d details) failures out (ground arith) in
            record {
              flagged = ground (arith, rest.flagged, step.same);
              listed = ground (arith, rest.listed, step.same);
              redacted =
                  λ hs. rest.redacted (All-put registry s.service d details step.redacted hs);
            }
        | inr bad ↦
            let rest =
              collect_lem registry ss (put s.service d details) (failures ++ (s.service, d) ∷ [])
                out (ground arith) in
            record {
              flagged = ground (
                arith,
                rest.flagged,
                step.same,
                step.required,
                any-append (λ p. p.1.required) failures ((s.service, d) ∷ []),
              );
              listed =
                  ground (arith, rest.listed, step.same, is_empty-append failures (s.service, d));
              redacted =
                  λ hs. rest.redacted (All-put registry s.service d details step.redacted hs);
            }
      ]
]

abbrev pub verdict : ReadinessRegistry → List ServiceHealthStatus → HealthStatus
verdict registry services =
    if any (is_outage registry) services
    then error_status
    else if all (λ s. s.ok) services
    then ok_status
    else degraded

-- What the endpoint says of the services of a result.
pub record IsReport (registry : ReadinessRegistry) (services : List ServiceHealthStatus)
    (response : Response) : Type 0 where
  -- error for an outage, degraded for other failures, ok for none
  status : response.body.status ≡ verdict registry services
  code : response.status_code ≡ (if any (is_outage registry) services then 503 else 200)
  redacted : All (IsRedacted registry) (get_or response.body.details [])

report_lem :
    (registry : ReadinessRegistry) (services : List ServiceHealthStatus) (response : Response)
    (failures : List Named)
    → report registry services ≡ ok (response, failures)
    → IsReport registry services response
unfolding report status_text
report_lem registry services response failures h =
    elim (Result-cases (collect registry services [] [])) [
      | inr (e, raised) ↦ ground arith
      | inl (out, e) ↦
          let c = collect_lem registry services [] [] out e in
          record {
            status = ground (arith, c.flagged, c.listed);
            code = ground (arith, c.flagged, c.listed);
            redacted = subst (All (IsRedacted registry)) (ground arith) (c.redacted tt);
          }
    ]

abbrev pub is_known : ReadinessRegistry → ServiceHealthStatus → Bool
is_known registry s = holds (λ spec. true) registry s.service

detail_of-is_ok :
    (registry : ReadinessRegistry) (s : ServiceHealthStatus)
    → is_known registry s ≡ true
    → is_ok (detail_of registry s) ≡ true
unfolding detail_of readiness_error
detail_of-is_ok registry s h = elim (Result-cases (resolve_spec s.service registry)) [
  | inr (e, raised) ↦ ground arith
  | inl (spec, e) ↦ elim (Bool-cases s.ok) [ inl good ↦ ground arith | inr bad ↦ ground arith ]
]

collect-is_ok :
    (registry : ReadinessRegistry) (ss : List ServiceHealthStatus)
    (details : Dict String HealthServiceDetail) (failures : List Named)
    → all (is_known registry) ss ≡ true
    → is_ok (collect registry ss details failures) ≡ true
unfolding collect
collect-is_ok registry [] details failures h = refl
collect-is_ok registry (s ∷ ss) details failures h = elim (Result-cases (detail_of registry s)) [
  | inl (d, e) ↦ rw e (collect-is_ok registry ss _ _ (ground arith))
  | inr (e, raised) ↦ ground (arith, detail_of-is_ok registry s)
]

report-is_ok :
    (registry : ReadinessRegistry) (services : List ServiceHealthStatus)
    → all (is_known registry) services ≡ true
    → is_ok (report registry services) ≡ true
unfolding report
report-is_ok registry services h = ground (arith, collect-is_ok registry services [] [] h)

-- When the registry knows every service of a result, the endpoint answers: with 503 and error for a
-- required service that is not ok, else with 200, and degraded if some service is not ok; and where the
-- check is redacted, the text of a failure is not that of its error.
pub report-IsReport :
    (registry : ReadinessRegistry) (services : List ServiceHealthStatus)
    → all (is_known registry) services ≡ true
    → (response : Response) × (failures : List Named) × (report registry services
        ≡ ok (response, failures))
      × IsReport registry services response
report-IsReport registry services known = elim (Result-cases (report registry services)) [
  | inl ((response, failures), e) ↦
      (response, failures, e, report_lem registry services response failures e)
  | inr (e, raised) ↦ cc (report-is_ok registry services known)
]
