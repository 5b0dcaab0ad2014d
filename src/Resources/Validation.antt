-- ===== src/Resources/Validation.antt =====
-- Which resources the registry accepts.
use fastapi_core.Prelude.{
  String, string_eq, Bool, true, not, ◌&&◌, ◌≡◌, refl, ◌↔◌, List, [], ◌∷◌, map, all, add, distinct,
  contains, all_new, all_new-nil, arith,
}
use fastapi_core.Text.{is_blank}
use fastapi_core.Result.{ok}
use fastapi_core.Readiness.{is_bad_timeout}
use fastapi_core.Resources.{ManagedResource, resource_name, validate}

-- What a resource needs beside a name of its own.
abbrev pub is_acceptable : List String → ManagedResource → Bool
is_acceptable reserved r =
    not (is_blank (resource_name r))
    && not (contains (resource_name r) reserved)
    && not (is_bad_timeout r.readiness_timeout_seconds)

validate-all_new :
    (reserved seen : List String) (rs : List ManagedResource)
    → (validate reserved seen rs ≡ ok tt)
      ↔ ((all (is_acceptable reserved) rs && all_new seen (map resource_name rs)) ≡ true)
unfolding validate
validate-all_new reserved seen [] = (λ _. refl, λ _. refl)
validate-all_new reserved seen (r ∷ rs) =
    let ih = validate-all_new reserved (add (resource_name r) seen) rs in
    (λ h. ground (arith, ih.0), λ h. ground (arith, ih.1))

-- The resources are accepted exactly if every name is neither blank nor reserved, every timeout that
-- is given is positive, and no name stands twice.
pub validate_iff :
    (reserved : List String) (rs : List ManagedResource)
    → (validate reserved [] rs ≡ ok tt)
      ↔ ((all (is_acceptable reserved) rs && distinct (map resource_name rs)) ≡ true)
validate_iff reserved rs =
    let by_loop = validate-all_new reserved [] rs in
    (
      λ h. ground (arith, by_loop.0 h, all_new-nil (map resource_name rs)),
      λ h. by_loop.1 (ground (arith, all_new-nil (map resource_name rs))),
    )
