-- ===== src/Factory/Routes.antt =====
-- Which routers are accepted together.
use mathlib.Core.Path.{subst}
use fastapi_core.Prelude.{
  String, string_eq, pair_eq, Bool, true, false, not, ◌&&◌, ◌≡◌, refl, sym, ap, List, [], ◌∷◌, ◌++◌,
  all, distinct, contains, add, add_all, all_new, all_new-append, add_all-append, all_new-nil,
  arith, if◌then◌else◌, append-nil,
}
use fastapi_core.Result.{Result, ok, err, is_ok, raise_if, Exn, ◌>>=◌}
use fastapi_core.Factory.{
  Route, api_route, other_route, Router, Seen, check_methods, check_operation_id, check_route,
  check_routes, check_routers, validate_routes,
}

-- A step succeeds exactly on a condition, and then with one result.
record Ends {A : Type 0} (good : Bool) (target : A) (r : Result A) : Type 0 where
  verdict : is_ok r ≡ good
  result : r ≡ (if good then ok target else r)

then_lem :
    {A B : Type 0} (g h : Bool) (a : A) (b : B) (r : Result A) (k : A → Result B)
    → Ends g a r
    → Ends h b (k a)
    → Ends (g && h) b (r >>= k)
then_lem true h a b r k first next =
    rw (first.result) (record { verdict = next.verdict; result = next.result })
then_lem false h a b (ok x) k first next = ground (arith, first.verdict)
then_lem false h a b (err e) k first next = record { verdict = refl; result = refl }

guard_lem : (b : Bool) (e : Exn) → Ends (not b) tt (raise_if b e)
guard_lem true e = record { verdict = refl; result = refl }
guard_lem false e = record { verdict = refl; result = refl }

-- What a router contributes: its contracts, and its operation ids.
abbrev contracts_of_methods : String → List String → List (String × String)
contracts_of_methods path [] = []
contracts_of_methods path (m ∷ ms) = (path, m) ∷ contracts_of_methods path ms

abbrev contracts_of : List Route → List (String × String)
contracts_of [] = []
contracts_of (other_route ∷ rs) = contracts_of rs
contracts_of (api_route path methods id ∷ rs) = contracts_of_methods path methods ++ contracts_of rs

abbrev ids_of : List Route → List String
ids_of [] = []
ids_of (other_route ∷ rs) = ids_of rs
ids_of (api_route path methods id ∷ rs) = id ∷ ids_of rs

abbrev pub all_contracts : List Router → List (String × String)
all_contracts [] = []
all_contracts (r ∷ rs) = contracts_of r.routes ++ all_contracts rs

abbrev pub all_ids : List Router → List String
all_ids [] = []
all_ids (r ∷ rs) = ids_of r.routes ++ all_ids rs

abbrev with_all : List (String × String) → List String → Seen → Seen
with_all cs ids seen = record {
  contracts = add_all seen.contracts cs;
  operation_ids = add_all seen.operation_ids ids;
}

abbrev are_new : List (String × String) → List String → Seen → Bool
are_new cs ids seen = all_new seen.contracts cs && all_new seen.operation_ids ids

check_methods_lem :
    (path : String) (ms : List String) (seen : Seen)
    → Ends
        (are_new (contracts_of_methods path ms) [] seen)
        (with_all (contracts_of_methods path ms) [] seen)
        (check_methods path ms seen)
unfolding check_methods add_all
check_methods_lem path [] seen = record { verdict = refl; result = refl }
check_methods_lem path (m ∷ ms) seen =
    let seen' = record seen { contracts = add (path, m) seen.contracts } in
    subst
      (λ g.
        Ends g (with_all (contracts_of_methods path (m ∷ ms)) [] seen)
          (check_methods path (m ∷ ms) seen))
      (ground arith)
      (then_lem _ _ tt (with_all (contracts_of_methods path ms) [] seen') _ _
        (guard_lem (contains (path, m) seen.contracts) _) (check_methods_lem path ms seen'))

check_route_lem :
    (r : Route) (seen : Seen)
    → Ends
        (are_new (contracts_of (r ∷ [])) (ids_of (r ∷ [])) seen)
        (with_all (contracts_of (r ∷ [])) (ids_of (r ∷ [])) seen)
        (check_route r seen)
unfolding check_route add_all
check_route_lem other_route seen = record { verdict = refl; result = refl }
check_route_lem (api_route path methods id) seen =
    let cs = contracts_of_methods path methods in
    let seen' = with_all cs [] seen in
    let target = with_all cs (id ∷ []) seen in
    subst
      (λ xs.
        Ends (are_new xs (id ∷ []) seen) (with_all xs (id ∷ []) seen)
          (check_route (api_route path methods id) seen))
      (sym (append-nil cs))
      (subst (λ g. Ends g target (check_route (api_route path methods id) seen)) (ground arith)
        (then_lem _ _ seen' target _ (check_operation_id id) (check_methods_lem path methods seen) (
          then_lem _ true tt target _ (λ _. ok target)
            (guard_lem (contains id seen.operation_ids) _)
            (record { verdict = refl; result = refl }))))

contracts_of-cons :
    (r : Route) (rs : List Route) → contracts_of (r ∷ rs) ≡ contracts_of (r ∷ []) ++ contracts_of rs
contracts_of-cons other_route rs = refl
contracts_of-cons (api_route path methods id) rs =
    ap (λ xs. xs ++ contracts_of rs) (sym (append-nil (contracts_of_methods path methods)))

ids_of-cons : (r : Route) (rs : List Route) → ids_of (r ∷ rs) ≡ ids_of (r ∷ []) ++ ids_of rs
ids_of-cons other_route rs = refl
ids_of-cons (api_route path methods id) rs = refl

-- Two parts, one after the other.
both_lem :
    (cs cs' : List (String × String)) (ids ids' : List String) (seen : Seen) (r : Result Seen)
    (k : Seen → Result Seen)
    → Ends (are_new cs ids seen) (with_all cs ids seen) r
    → Ends
        (are_new cs' ids' (with_all cs ids seen))
        (with_all cs' ids' (with_all cs ids seen))
        (k (with_all cs ids seen))
    → Ends
        (are_new (cs ++ cs') (ids ++ ids') seen)
        (with_all (cs ++ cs') (ids ++ ids') seen)
        (r >>= k)
both_lem cs cs' ids ids' seen r k first next =
    rw
      (
        all_new-append seen.contracts cs cs',
        all_new-append seen.operation_ids ids ids',
        add_all-append seen.contracts cs cs',
        add_all-append seen.operation_ids ids ids',
      )
      (subst (λ g. Ends g (with_all cs' ids' (with_all cs ids seen)) (r >>= k)) (ground arith)
        (then_lem _ _ (with_all cs ids seen) _ r k first next))

check_routes_lem :
    (rs : List Route) (seen : Seen)
    → Ends
        (are_new (contracts_of rs) (ids_of rs) seen)
        (with_all (contracts_of rs) (ids_of rs) seen)
        (check_routes rs seen)
unfolding check_routes add_all
check_routes_lem [] seen = record { verdict = refl; result = refl }
check_routes_lem (r ∷ rs) seen =
    rw (contracts_of-cons r rs, ids_of-cons r rs)
      (both_lem _ (contracts_of rs) _ (ids_of rs) seen _ (check_routes rs) (check_route_lem r seen)
        (check_routes_lem rs _))

check_routers_lem :
    (rs : List Router) (seen : Seen)
    → is_ok (check_routers rs seen)
      ≡ (all (λ r. r.is_api_router) rs && are_new (all_contracts rs) (all_ids rs) seen)
unfolding check_routers add_all
check_routers_lem [] seen = refl
check_routers_lem (r ∷ rs) seen =
    let first = check_routes_lem r.routes seen in
    let next = with_all (contracts_of r.routes) (ids_of r.routes) seen in
    ground (
      arith,
      first.verdict,
      first.result,
      check_routers_lem rs next,
      all_new-append seen.contracts (contracts_of r.routes) (all_contracts rs),
      all_new-append seen.operation_ids (ids_of r.routes) (all_ids rs),
    )

-- The routers of an application are accepted exactly if each is an APIRouter, no method and path
-- stand together twice among all routes, and no operation id does.
pub validate_routes_iff :
    (rs : List Router)
    → is_ok (validate_routes rs)
      ≡ (all (λ r. r.is_api_router) rs && distinct (all_contracts rs) && distinct (all_ids rs))
unfolding validate_routes
validate_routes_iff rs = ground (
  arith,
  check_routers_lem rs (record { contracts = []; operation_ids = [] }),
  all_new-nil (all_contracts rs),
  all_new-nil (all_ids rs),
)
