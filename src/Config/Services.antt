-- ===== src/Config/Services.antt =====
-- The check that required services are enabled.
use fastapi_core.Prelude.{
  String, string_eq, true, not, ◌≡◌, refl, ◌↔◌, List, [], ◌∷◌, filter, contains, subset, is_empty,
  arith,
}
use fastapi_core.Result.{ok}
use fastapi_core.Config.{AppConfig, missing_services, validate_required_services}

none_missing :
    (required enabled : List String)
    → is_empty (filter (λ s. not (contains s enabled)) required) ≡ subset required enabled
none_missing [] enabled = refl
none_missing (s ∷ required) enabled = ground (arith, none_missing required enabled)

-- A configuration is accepted, and then unchanged, exactly if every required service is enabled.
pub validate_required_services_iff :
    (c : AppConfig)
    → (validate_required_services c ≡ ok c) ↔ (subset c.required_services c.enabled_services ≡ true)
unfolding validate_required_services missing_services
validate_required_services_iff c =
    ground (arith, none_missing c.required_services c.enabled_services)
