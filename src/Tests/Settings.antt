-- ===== src/Tests/Settings.antt =====
-- The parsers of settings, the validator of services and the runtime plan.
use fastapi_core.Prelude.{String, string_eq, true, false, ◌≡◌, refl, [], ◌∷◌, All}
use fastapi_core.Text.{strip, is_free, join}
use fastapi_core.Result.{Result, ok}
use fastapi_core.Config.{AppConfig, default_config, parse_csv_env, parse_groups}
use fastapi_core.Config.Csv.{parse_csv_env-join, parse_groups-join}
use fastapi_core.Runtime.{RuntimePlan, build_runtime_plan, build_healthcheck_policy}
use fastapi_core.Runtime.{parse_groups as parse_alternatives}
use fastapi_core.Runtime.Plan.{Planned, build_runtime_plan-Planned}

parse_csv_env-join_example :
    parse_csv_env (join "," ("postgres" ∷ "minio" ∷ [])) ≡ "postgres" ∷ "minio" ∷ []
unfolding strip is_free
parse_csv_env-join_example =
    parse_csv_env-join ("postgres" ∷ "minio" ∷ []) ((refl, refl, refl), ((refl, refl, refl), tt))

parse_groups-join_example :
    parse_groups (join ";" ("a,b" ∷ "c" ∷ [])) ≡ ("a" ∷ "b" ∷ []) ∷ ("c" ∷ []) ∷ []
unfolding strip is_free join
parse_groups-join_example = parse_groups-join (("a" ∷ "b" ∷ []) ∷ ("c" ∷ []) ∷ []) (
  (refl, ((refl, refl, refl), ((refl, refl, refl), tt)), (refl, (refl, tt))),
  ((refl, ((refl, refl, refl), tt), (refl, tt)), tt),
)

abbrev keycloak_config : AppConfig
keycloak_config = record default_config {
  enabled_services = "keycloak" ∷ "minio" ∷ [];
  required_services = "keycloak" ∷ [];
}

abbrev parse_any : String → Result String
parse_any name = ok name

abbrev keycloak_plan : RuntimePlan
keycloak_plan = record {
  services = ("keycloak", true) ∷ ("minio", false) ∷ [];
  one_of = [];
  healthcheck = build_healthcheck_policy keycloak_config;
}

build_runtime_plan-Planned_example :
    All (Planned parse_any ("keycloak" ∷ []) keycloak_plan.services) ("keycloak" ∷ "minio" ∷ [])
    × (parse_alternatives parse_any [] ≡ ok [])
    × (build_healthcheck_policy keycloak_config ≡ build_healthcheck_policy keycloak_config)
unfolding build_runtime_plan
build_runtime_plan-Planned_example =
    build_runtime_plan-Planned parse_any keycloak_config keycloak_plan refl
