-- ===== src/Factory/Names.antt =====
-- Which names of extensions, of modules and of error mappers are accepted.
use fastapi_core.Prelude.{
  ℕ, String, string_eq, nat_eq, Bool, true, not, ◌&&◌, ◌≡◌, refl, ap, ◌∙◌, List, [], ◌∷◌, ◌++◌, map,
  all, all-append, filter, is_empty, distinct, contains, add, add_all, all_new, all_new-append,
  add_all-append, all_new-nil, arith, if◌then◌else◌, Option, is_some,
}
use fastapi_core.Result.{ok, is_ok}
use fastapi_core.Store.{ReadinessCheckSpec}
use fastapi_core.Resources.{Resource}
use fastapi_core.Runtime.{RuntimePlan, ServiceRuntime}
use fastapi_core.Http.{Classes}
use fastapi_core.Factory.{
  register_extension_names, validate_extension_names, name_of_resource, runtime_names,
  planned_names, ErrorMapperSpec, check_error_mappers, validate_error_mappers,
}

register_lem :
    (names ns : List String)
    → register_extension_names names ns
      ≡ (if all_new names ns then ok (add_all names ns) else register_extension_names names ns)
unfolding register_extension_names add_all
register_lem names [] = refl
register_lem names (n ∷ ns) = ground (arith, register_lem (add n names) ns)

register-is_ok :
    (names ns : List String) → is_ok (register_extension_names names ns) ≡ all_new names ns
unfolding register_extension_names
register-is_ok names [] = refl
register-is_ok names (n ∷ ns) = ground (arith, register-is_ok (add n names) ns)

-- The names of the resources, of the checks of modules, and of the services that run.
abbrev pub extension_names :
    List Resource → List ReadinessCheckSpec → Option ServiceRuntime → List String
extension_names resources checks runtime =
    map name_of_resource resources ++ map (λ s. s.name) checks ++ runtime_names runtime

filter-is_empty :
    (p : String → Bool) (xs : List String) → is_empty (filter p xs) ≡ all (λ x. not (p x)) xs
filter-is_empty p [] = refl
filter-is_empty p (x ∷ xs) = ground (arith, filter-is_empty p xs)

all-add_all :
    (p : String → Bool) (seen xs : List String)
    → all_new seen xs ≡ true
    → all p (add_all seen xs) ≡ (all p seen && all p xs)
unfolding add_all
all-add_all p seen [] h = ground arith
all-add_all p seen (x ∷ xs) h =
    ground (arith, all-add_all p (add x seen) xs, all-append p seen (x ∷ []))

-- The names of an application's extensions are accepted exactly if they are all different, and none
-- is the name of a service that the runtime plan selects.
pub validate_extension_names_iff :
    (resources : List Resource) (checks : List ReadinessCheckSpec) (runtime : Option ServiceRuntime)
    (plan : Option RuntimePlan)
    → let names = extension_names resources checks runtime in
      is_ok (validate_extension_names resources checks runtime plan)
      ≡ (distinct names && all (λ n. not (contains n (planned_names plan))) names)
unfolding validate_extension_names
validate_extension_names_iff resources checks runtime plan =
    let rs = map name_of_resource resources in
    let cs = map (λ s. s.name) checks in
    let ss = runtime_names runtime in
    let n1 = add_all [] rs in
    let n2 = add_all n1 cs in
    let n3 = add_all n2 ss in
    let p : String → Bool = λ n. not (contains n (planned_names plan)) in
    let whole : all_new [] (rs ++ cs ++ ss) ≡ (all_new [] rs && all_new n1 cs && all_new n2 ss) =
      rw (all_new-append [] (rs ++ cs) ss, all_new-append [] rs cs, add_all-append [] rs cs)
        (ground arith) in
    let members : add_all [] (rs ++ cs ++ ss) ≡ n3 =
      add_all-append [] (rs ++ cs) ss ∙ ap (λ n. add_all n ss) (add_all-append [] rs cs) in
    ground (
      arith,
      register_lem [] rs,
      register_lem n1 cs,
      register_lem n2 ss,
      register-is_ok [] rs,
      register-is_ok n1 cs,
      register-is_ok n2 ss,
      whole,
      members,
      all_new-nil (rs ++ cs ++ ss),
      filter-is_empty (λ n. contains n (planned_names plan)) n3,
      all-add_all p [] (rs ++ cs ++ ss),
    )

abbrev pub is_valid_mapper : Classes → ErrorMapperSpec → Bool
is_valid_mapper classes s = classes.is_exception_type s.exception_type && is_some s.mapper

abbrev pub types_of : List ErrorMapperSpec → List ℕ
types_of specs = map (λ s. s.exception_type) specs

check_error_mappers_lem :
    (classes : Classes) (types : List ℕ) (specs : List ErrorMapperSpec)
    → is_ok (check_error_mappers classes types specs)
      ≡ (all (is_valid_mapper classes) specs && all_new types (types_of specs))
unfolding check_error_mappers
check_error_mappers_lem classes types [] = refl
check_error_mappers_lem classes types (s ∷ specs) =
    ground (arith, check_error_mappers_lem classes (add s.exception_type types) specs)

-- Error mappers are accepted exactly if each is a callable for an exception type, and no type has two.
pub validate_error_mappers_iff :
    (classes : Classes) (specs : List ErrorMapperSpec)
    → is_ok (validate_error_mappers classes specs)
      ≡ (all (is_valid_mapper classes) specs && distinct (types_of specs))
unfolding validate_error_mappers
validate_error_mappers_iff classes specs =
    check_error_mappers_lem classes [] specs ∙ ground (arith, all_new-nil (types_of specs))
