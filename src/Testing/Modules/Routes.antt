-- ===== src/Testing/Modules/Routes.antt =====
-- The routes of routers, and whether a document has an operation for each.
use mathlib.Core.List.{Memᴰ}
use fastapi_core.Prelude.{
  String, string_eq, nat_eq, pair_eq, Bool, true, false, ◌&&◌, ◌≡◌, refl, sym, ap, ◌∙◌, Option,
  none, some, is_some, List, [], ◌∷◌, ◌++◌, all, any, all-append, arith, inl, inr, if◌then◌else◌,
  Option-cases,
}
use fastapi_core.Dict.{Dict, get, has}
use fastapi_core.Result.{ok, is_ok, is_ok-for_each, >>=-eq-ok}
use fastapi_core.Transport.{TransportPolicy}
use fastapi_core.Factory.{Route, api_route, other_route, Router, DomainModule}
use fastapi_core.Factory.Plan.{Included, module_routers}
use fastapi_core.Store.{ReadinessCheckSpec}
use fastapi_core.Openapi.{
  Operation, password_flow, other_scheme, Document, document_policy, transport_openapi,
  oauth2_openapi, openapi,
}
use fastapi_core.Openapi.Documented.{
  operation_in, map_option, operation_at, operation_at-document_policy,
}
use fastapi_core.Testing.Contracts.{Texts}
use fastapi_core.Testing.Contracts.Parts.{all-ext, is_ok-check_that}
use fastapi_core.Testing.Modules.Names.{collect}
use fastapi_core.Factory.Create.Inclusion.{routers_of}
use fastapi_core.Testing.Modules.{for_route, for_routes, check_method}

is_some-policy :
    (b : Bool) (f : Operation → Operation) (o : Option Operation)
    → is_some (if b then map_option f o else o) ≡ is_some o
is_some-policy true f none = refl
is_some-policy true f (some o) = refl
is_some-policy false f o = refl

oauth2_paths :
    (token_url : String) (d d' : Document) → oauth2_openapi token_url d ≡ ok d' → d'.paths ≡ d.paths
unfolding oauth2_openapi
oauth2_paths token_url d d' h =
    elim (Option-cases (get "OAuth2PasswordBearer" d.security_schemes)) [
      | inl absent ↦ ground arith
      | inr (password_flow url rest, found) ↦ ground arith
      | inr (other_scheme missing json, found) ↦ ground arith
    ]

module _ (texts : Texts) where
  -- Every method of the API routes has an operation in the document.
  abbrev route_is_there : Document → Route → Bool
  route_is_there d other_route = true
  route_is_there d (api_route path methods id) =
      all (λ m. is_some (operation_at d path (texts.lower m))) methods

  abbrev pub router_is_there : Document → Router → Bool
  router_is_there d router = all (route_is_there d) router.routes

  is_there-document_policy :
      (method path : String) (policy : TransportPolicy) (d : Document) (p m : String)
      → is_some (operation_at (document_policy texts.lower method path policy d) p m)
        ≡ is_some (operation_at d p m)
  is_there-document_policy method path policy d p m =
      rw (operation_at-document_policy texts.lower method path policy d p m) (
        is_some-policy (string_eq.beq path p && string_eq.beq (texts.lower method) m) _
          (operation_at d p m))

  is_there-transport_openapi :
      (policies : Dict (String × String) TransportPolicy) (d : Document) (p m : String)
      → is_some (operation_at (transport_openapi texts.lower policies d) p m)
        ≡ is_some (operation_at d p m)
  unfolding transport_openapi
  is_there-transport_openapi [] d p m = refl
  is_there-transport_openapi (((method, path), policy) ∷ policies) d p m =
      is_there-transport_openapi policies (document_policy texts.lower method path policy d) p m
      ∙ is_there-document_policy method path policy d p m

  is_there-openapi :
      (token_url : String) (policies : Dict (String × String) TransportPolicy) (d d' : Document)
      (p m : String)
      → openapi texts.lower token_url policies d ≡ ok d'
      → is_some (operation_at d' p m) ≡ is_some (operation_at d p m)
  unfolding openapi
  is_there-openapi token_url policies d d' p m h =
      let (d1, e, rest) = >>=-eq-ok (oauth2_openapi token_url d) _ h in
      let same : transport_openapi texts.lower policies d1 ≡ d' = cc in
      ap (λ (q : Document). is_some (operation_at q p m)) (sym same)
      ∙ is_there-transport_openapi policies d1 p m
      ∙ ap (λ paths. is_some (operation_in (get p paths) m)) (oauth2_paths token_url d d1 e)

  is_ok-check_method :
      (d : Document) (path method : String)
      → is_ok (check_method texts d path method)
        ≡ is_some (operation_at d path (texts.lower method))
  unfolding check_method get
  is_ok-check_method d path method = elim (Option-cases (get path d.paths)) [
    | inl absent ↦ rw absent refl
    | inr (operations, there) ↦ rw there (is_ok-check_that (has (texts.lower method) operations) _)
  ]

  is_ok-for_route :
      (d : Document) (route : Route)
      → is_ok (for_route (check_method texts d) route) ≡ route_is_there d route
  is_ok-for_route d other_route = refl
  is_ok-for_route d (api_route path methods id) =
      is_ok-for_each methods _ ∙ all-ext (is_ok-check_method d path) methods

  pub is_ok-for_routes :
      (d : Document) (routers : List Router)
      → is_ok (for_routes (check_method texts d) routers) ≡ all (router_is_there d) routers
  unfolding for_routes
  is_ok-for_routes d routers =
      is_ok-for_each routers _
      ∙ all-ext
          (λ router. is_ok-for_each router.routes _ ∙ all-ext (is_ok-for_route d) router.routes)
          routers

  pub router_is_there-openapi :
      (token_url : String) (policies : Dict (String × String) TransportPolicy) (d d' : Document)
      → openapi texts.lower token_url policies d ≡ ok d'
      → (router : Router) → router_is_there d' router ≡ router_is_there d router
  router_is_there-openapi token_url policies d d' h router = all-ext route router.routes
    where
      route : (r : Route) → route_is_there d' r ≡ route_is_there d r
      route other_route = refl
      route (api_route path methods id) =
          all-ext (λ m. is_there-openapi token_url policies d d' path (texts.lower m) h) methods

pub collect_routers : (ms : List DomainModule) → module_routers ms ≡ collect (λ m. m.routers) ms
collect_routers [] = refl
collect_routers (m ∷ ms) = ap (λ rs. m.routers ++ rs) (collect_routers ms)

pub all-routers_of :
    (p : Router → Bool) (included : List Included)
    → all p (routers_of included) ≡ all (λ i. p i.router) included
all-routers_of p [] = refl
all-routers_of p (i ∷ included) = ap (λ b. p i.router && b) (all-routers_of p included)

pub all-imp :
    {p q : ReadinessCheckSpec → Bool}
    → ((s : ReadinessCheckSpec) → p s ≡ true → q s ≡ true)
    → (xs : List ReadinessCheckSpec) → all p xs ≡ true
    → all q xs ≡ true
all-imp f [] h = refl
all-imp f (x ∷ xs) h = ground (arith, f x, all-imp f xs)

pub all-suffix :
    (p : Router → Bool) (xs ys : List Router) → all p (xs ++ ys) ≡ true → all p ys ≡ true
all-suffix p xs ys h = ground (arith, all-append p xs ys)

pub any-mem :
    (p : DomainModule → Bool) (m : DomainModule) (ms : List DomainModule)
    → p m ≡ true
    → Memᴰ m ms
    → any p ms ≡ true
any-mem p m [] h listed = elim listed [ ]
any-mem p m (m' ∷ ms) h (Memᴰ.head same) = let e : p m' ≡ true = ap p (sym same) ∙ h in ground arith
any-mem p m (m' ∷ ms) h (Memᴰ.tail later) = ground (arith, any-mem p m ms h later)
