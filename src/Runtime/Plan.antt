-- ===== src/Runtime/Plan.antt =====
-- What a runtime plan says of the enabled services.
use mathlib.Core.List.{Memᴰ}
use mathlib.Core.Path.{subst}
use fastapi_core.Prelude.{String, string_eq, Bool, ◌≡◌, refl, List, [], ◌∷◌, All, All-map, contains}
use fastapi_core.Result.{Result, ok, >>=-eq-ok}
use fastapi_core.Config.{AppConfig}
use fastapi_core.Runtime.{
  RuntimePlan, build_healthcheck_policy, plan_services, parse_groups, build_runtime_plan,
}

module _ (parse : String → Result String) where
  -- The service that the name stands for is in the list, with the flag for required names.
  abbrev pub Planned : List String → List (String × Bool) → String → Type 0
  Planned required services n =
      (service : String) × (parse n ≡ ok service) × Memᴰ (service, contains n required) services

  Planned-tail :
      (required : List String) (x : String × Bool) (services : List (String × Bool))
      (ns : List String)
      → All (Planned required services) ns
      → All (Planned required (x ∷ services)) ns
  Planned-tail required x services ns h =
      All-map (λ n (found, parsed, listed). (found, parsed, Memᴰ.tail listed)) ns h

  plan_services-Planned :
      (required names : List String) (services : List (String × Bool))
      → plan_services parse required names ≡ ok services
      → All (Planned required services) names
  unfolding plan_services
  plan_services-Planned required [] services h = tt
  plan_services-Planned required (x ∷ xs) services h =
      let (service, parsed, h') = >>=-eq-ok (parse x) _ h in
      let (rest, planned, e) = >>=-eq-ok (plan_services parse required xs) _ h' in
      let same : (service, contains x required) ∷ rest ≡ services = cc in
      subst (λ all. All (Planned required all) (x ∷ xs)) same
        (
          (service, parsed, Memᴰ.head refl),
          Planned-tail required (service, contains x required) rest xs
              (plan_services-Planned required xs rest planned),
        )

  pub build_runtime_plan-Planned :
      (config : AppConfig) (plan : RuntimePlan)
      → build_runtime_plan parse config ≡ ok plan
      → All (Planned config.required_services plan.services) config.enabled_services
        × (parse_groups parse config.service_alternatives ≡ ok plan.one_of)
        × (plan.healthcheck ≡ build_healthcheck_policy config)
  unfolding build_runtime_plan
  build_runtime_plan-Planned config plan h =
      let (services, planned, h') = >>=-eq-ok (plan_services parse _ config.enabled_services) _ h in
      let (groups, grouped, e) = >>=-eq-ok (parse_groups parse config.service_alternatives) _ h' in
      let made : RuntimePlan = record {
        services = services;
        one_of = groups;
        healthcheck = build_healthcheck_policy config;
      } in
      let same : made ≡ plan = cc in
      rw (← same) (plan_services-Planned _ config.enabled_services services planned, grouped, refl)
