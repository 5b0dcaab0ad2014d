-- ===== src/Testing/Modules/Names.antt =====
-- What the modules of an application bring, on the application that `create_app` makes.
use mathlib.Core.List.{Memᴰ, map-append}
use fastapi_core.Prelude.{
  Eq, String, string_eq, nat_eq, Bool, true, ◌&&◌, ◌≡◌, refl, sym, ap, ◌∙◌, List, [], ◌∷◌, ◌++◌,
  map, all, all-append, add, contains, contains-append, subset, append-nil, append_assoc, arith,
}
use fastapi_core.Result.{ok, >>=-eq-ok, raise_if, ◌>>◌, ◌>>=◌}
use fastapi_core.Transport.{validate_module_conflicts}
use fastapi_core.Resources.{
  Resource, ResourceName, text, key, Options, name_of, resource_key, managed, binding,
  ResourceBinding, ResourceRegistry, to_binding, to_bindings, bind, make_binding, managed_resource,
  make_registry, resource_name, validate,
}
use fastapi_core.Factory.{
  DomainModule, Flattened, extend, flatten_loop, flatten_modules, policies_of, name_of_resource,
}

-- What all modules bring, in their order.
module _ {ℓ} {A : Type ℓ} (part : DomainModule → List A) where
  abbrev pub collect : List DomainModule → List A
  collect [] = []
  collect (m ∷ ms) = part m ++ collect ms

  -- What holds of all that all bring holds of what each brings.
  pub all-collect :
      (p : A → Bool) (m : DomainModule) (ms : List DomainModule)
      → all p (collect ms) ≡ true
      → Memᴰ m ms
      → all p (part m) ≡ true
  all-collect p m [] h listed = elim listed [ ]
  all-collect p m (m' ∷ ms) h (Memᴰ.head same) =
      rw same (ground (arith, all-append p (part m') (collect ms)))
  all-collect p m (m' ∷ ms) h (Memᴰ.tail later) =
      all-collect p m ms (ground (arith, all-append p (part m') (collect ms))) later

module _ {ℓ κ} {A : Type ℓ} {B : Type κ} ⦃e : Eq B⦄ where
  pub all-contains-map :
      (f : A → B) (xs : List A) (ys : List B)
      → all (λ x. contains (f x) ys) xs ≡ subset (map f xs) ys
  all-contains-map f [] ys = refl
  all-contains-map f (x ∷ xs) ys = ap (λ b. contains (f x) ys && b) (all-contains-map f xs ys)

module _ {ℓ} {B : Type ℓ} ⦃e : Eq B⦄ where
  subset-cons : (y : B) (xs ys : List B) → subset xs ys ≡ true → subset xs (y ∷ ys) ≡ true
  subset-cons y [] ys h = refl
  subset-cons y (x ∷ xs) ys h = ground (arith, subset-cons y xs ys)

  pub subset_refl : (xs : List B) → subset xs xs ≡ true
  subset_refl [] = refl
  subset_refl (x ∷ xs) = ground (arith, e.beq_iff x x, subset-cons x xs xs (subset_refl xs))

  pub subset-append_left : (xs ys zs : List B) → subset xs ys ≡ true → subset xs (ys ++ zs) ≡ true
  subset-append_left [] ys zs h = refl
  subset-append_left (x ∷ xs) ys zs h =
      ground (arith, contains-append x ys zs, subset-append_left xs ys zs)

  pub subset-append_right : (xs ys zs : List B) → subset xs zs ≡ true → subset xs (ys ++ zs) ≡ true
  subset-append_right [] ys zs h = refl
  subset-append_right (x ∷ xs) ys zs h =
      ground (arith, contains-append x ys zs, subset-append_right xs ys zs)

module _ {ℓ κ} {A : Type ℓ} {B : Type κ} ⦃e : Eq B⦄ where
  -- What a module brings is among what all bring.
  pub subset-collect :
      (part : DomainModule → List A) (f : A → B) (m : DomainModule) (ms : List DomainModule)
      → Memᴰ m ms
      → subset (map f (part m)) (map f (collect part ms)) ≡ true
  subset-collect part f m [] listed = elim listed [ ]
  subset-collect part f m (m' ∷ ms) (Memᴰ.head same) =
      rw (same, map-append f (part m') (collect part ms))
        (subset-append_left (map f (part m')) (map f (part m')) (map f (collect part ms))
          (subset_refl (map f (part m'))))
  subset-collect part f m (m' ∷ ms) (Memᴰ.tail later) =
      rw (map-append f (part m') (collect part ms)) (
        subset-append_right (map f (part m)) (map f (part m')) (map f (collect part ms))
          (subset-collect part f m ms later))

flatten_loop_lem :
    (names : List String) (ms : List DomainModule) (f f' : Flattened)
    → flatten_loop names ms f ≡ ok f'
    → (f'.resources ≡ f.resources ++ collect (λ m. m.resources) ms)
      × (f'.readiness_checks ≡ f.readiness_checks ++ collect (λ m. m.readiness_checks) ms)
      × (f'.error_mappers ≡ f.error_mappers ++ collect (λ m. m.error_mappers) ms)
unfolding flatten_loop
flatten_loop_lem names [] f f' h =
    let e : f ≡ f' = cc in
    (
      ap (λ g. g.resources) (sym e) ∙ sym (append-nil f.resources),
      ap (λ g. g.readiness_checks) (sym e) ∙ sym (append-nil f.readiness_checks),
      ap (λ g. g.error_mappers) (sym e) ∙ sym (append-nil f.error_mappers),
    )
flatten_loop_lem names (m ∷ ms) f f' h =
    let (done, new, rest) =
      >>=-eq-ok (raise_if (contains m.name names) _)
        (λ _. flatten_loop (add m.name names) ms (extend m f)) h in
    let ih = flatten_loop_lem (add m.name names) ms (extend m f) f' rest in
    (
      ih.0 ∙ append_assoc f.resources m.resources (collect (λ m. m.resources) ms),
      ih.1
          ∙ append_assoc f.readiness_checks m.readiness_checks
              (collect (λ m. m.readiness_checks) ms),
      ih.2 ∙ append_assoc f.error_mappers m.error_mappers (collect (λ m. m.error_mappers) ms),
    )

abbrev no_parts : Flattened
no_parts = record { resources = []; readiness_checks = []; error_mappers = [] }

-- What `_flatten_modules` gives is all that the modules bring.
pub flatten_modules_lem :
    (ms : List DomainModule) (f : Flattened)
    → flatten_modules ms ≡ ok f
    → (f.resources ≡ collect (λ m. m.resources) ms)
      × (f.readiness_checks ≡ collect (λ m. m.readiness_checks) ms)
      × (f.error_mappers ≡ collect (λ m. m.error_mappers) ms)
unfolding flatten_modules
flatten_modules_lem ms f h =
    let (flattened, looped, rest) =
      >>=-eq-ok (flatten_loop [] ms no_parts)
        (λ flattened. validate_module_conflicts (policies_of ms) >> ok flattened) h in
    let (done, valid, same) =
      >>=-eq-ok (validate_module_conflicts (policies_of ms)) (λ _. ok flattened) rest in
    let e : flattened ≡ f = cc in rw (sym e) (flatten_loop_lem [] ms no_parts flattened looped)

make_binding_key :
    (name : ResourceName) (options : Options) (b : ResourceBinding)
    → make_binding name options ≡ ok b
    → b.key ≡ name_of name
unfolding make_binding resource_key
make_binding_key (key k) options b h = ground arith
make_binding_key (text k) options b h =
    let (k', made, same) =
      >>=-eq-ok (resource_key k) (λ k'. ok (record { key = k'; options = options })) h in
    let e : k' ≡ k = resource_key_lem k k' made in ground arith
  where
    resource_key_lem : (k k' : String) → resource_key k ≡ ok k' → k' ≡ k
    resource_key_lem k k' h = ground arith

to_binding_key :
    (r : Resource) (b : ResourceBinding) → to_binding r ≡ ok b → b.key ≡ name_of_resource r
unfolding to_binding bind
to_binding_key (binding b') b h = ground arith
to_binding_key (managed r) b h =
    let (done, named, bound) = >>=-eq-ok (raise_if _ _) (λ _. make_binding r.name r.options) h in
    make_binding_key r.name r.options b bound

cons_eq : {x y : String} {xs ys : List String} → x ≡ y → xs ≡ ys → x ∷ xs ≡ y ∷ ys
cons_eq h k = cc

-- The names of the resources that a registry holds are those of the resources that it was given.
to_bindings_names :
    (resources : List Resource) (bindings : List ResourceBinding)
    → to_bindings resources ≡ ok bindings
    → map resource_name (map managed_resource bindings) ≡ map name_of_resource resources
unfolding to_bindings managed_resource
to_bindings_names [] bindings h = let e : [] ≡ bindings = cc in rw (sym e) refl
to_bindings_names (r ∷ rs) bindings h =
    let (b, bound, rest) = >>=-eq-ok (to_binding r) (λ b. to_bindings rs >>= λ bs. ok (b ∷ bs)) h in
    let (bs, more, same) = >>=-eq-ok (to_bindings rs) (λ bs. ok (b ∷ bs)) rest in
    let e : b ∷ bs ≡ bindings = cc in
    ap (map resource_name) (ap (map managed_resource) (sym e))
    ∙ cons_eq (to_binding_key r b bound) (to_bindings_names rs bs more)

pub make_registry_names :
    (reserved : List String) (resources : List Resource) (made : ResourceRegistry)
    → make_registry reserved resources ≡ ok made
    → map resource_name made.resources ≡ map name_of_resource resources
unfolding make_registry
make_registry_names reserved resources made h =
    let (bindings, bound, rest) = >>=-eq-ok (to_bindings resources) _ h in
    let managed = map managed_resource bindings in
    let (done, valid, same) = >>=-eq-ok (validate reserved [] managed) _ rest in
    let e : made.resources ≡ managed = ground arith in
    ap (map resource_name) e ∙ to_bindings_names resources bindings bound
