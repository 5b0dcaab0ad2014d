-- ===== src/Dict/Laws.antt =====
-- Lookup laws of dictionaries, in conditional form.
use fastapi_core.Prelude.{
  Eq, [], ◌∷◌, ◌++◌, none, some, Bool, true, false, or_else, ◌≡◌, refl, distinct, All, All-map,
  filter, if◌then◌else◌, arith, contains,
}
use mathlib.Core.List.{map-append}
use fastapi_core.Dict.{Dict, keys, get, has, put, remove, set_default}

module _ {ℓ κ} {K : Type ℓ} {V : Type κ} ⦃e : Eq K⦄ where
  pub get-put :
      (k j : K) (v : V) (d : Dict K V) → get j (put k v d) ≡ (if e.beq k j then some v else get j d)
  unfolding get put
  get-put k j v [] = refl
  get-put k j v ((i, w) ∷ d) =
      ground (arith, get-put k j v d, e.beq_iff i k, e.beq_iff i j, e.beq_iff k j)

  pub get-remove :
      (k j : K) (d : Dict K V) → get j (remove k d) ≡ (if e.beq k j then none else get j d)
  unfolding get remove
  get-remove k j [] = ground arith
  get-remove k j ((i, w) ∷ d) =
      ground (arith, get-remove k j d, e.beq_iff i k, e.beq_iff i j, e.beq_iff k j)

  pub get-set_default :
      (k j : K) (v : V) (d : Dict K V)
      → get j (set_default k v d) ≡ (if e.beq k j then or_else (get j d) (some v) else get j d)
  unfolding set_default
  get-set_default k j v d = ground (arith, get-put k j v d, e.beq_iff k j)

  pub get-append : (k : K) (d d' : Dict K V) → get k (d ++ d') ≡ or_else (get k d) (get k d')
  unfolding get
  get-append k [] d' = refl
  get-append k ((j, v) ∷ d) d' = ground (arith, get-append k d d')

  -- A new key goes to the end.
  pub put-append : (k : K) (v : V) (d : Dict K V) → has k d ≡ false → put k v d ≡ d ++ (k, v) ∷ []
  unfolding get put
  put-append k v [] h = refl
  put-append k v ((j, w) ∷ d) h = ground (arith, put-append k v d)

  pub has-contains : (k : K) (d : Dict K V) → has k d ≡ contains k (keys d)
  unfolding get
  has-contains k [] = refl
  has-contains k ((j, w) ∷ d) = ground (arith, has-contains k d, e.beq_iff j k, e.beq_iff k j)

  pub keys-append : (d d' : Dict K V) → keys (d ++ d') ≡ keys d ++ keys d'
  keys-append d d' = map-append _ d d'

  pub remove-append_self :
      (k : K) (v : V) (d : Dict K V) → has k d ≡ false → remove k (d ++ (k, v) ∷ []) ≡ d
  unfolding get remove
  remove-append_self k v [] h = ground (arith, e.beq_iff k k)
  remove-append_self k v ((j, w) ∷ d) h = ground (arith, remove-append_self k v d)

module _ {ℓ κ} {K : Type ℓ} {V : Type κ} ⦃e : Eq K⦄ where
  pub get-put_self : (k : K) (v : V) (d : Dict K V) → get k (put k v d) ≡ some v
  get-put_self k v d = ground (arith, get-put k k v d, e.beq_iff k k)

module _ {ℓ κ} {K : Type ℓ} {V : Type κ} ⦃e : Eq K⦄ where
  -- With distinct keys, each entry is the one that its key finds.
  pub get-entries : (d : Dict K V) → distinct (keys d) ≡ true → All (λ p. get p.0 d ≡ some p.1) d
  unfolding get
  get-entries [] h = tt
  get-entries ((k, v) ∷ d) h = (
    ground (arith, e.beq_iff k k),
    All-map {P = λ p. get p.0 d ≡ some p.1}
        (λ p found. ground (arith, has-contains p.0 d, e.beq_iff k p.0)) d
        (get-entries d (ground arith)),
  )

  not-contains-filter :
      (p : K × V → Bool) (k : K) (d : Dict K V)
      → contains k (keys d) ≡ false
      → contains k (keys (filter p d)) ≡ false
  not-contains-filter p k [] h = refl
  not-contains-filter p k ((j, w) ∷ d) h = ground (arith, not-contains-filter p k d)

  -- The names of a selection are those of the entries selected.
  pub contains-filter :
      (p : V → Bool) (k : K) (v : V) (d : Dict K V)
      → distinct (keys d) ≡ true
      → get k d ≡ some v
      → contains k (keys (filter (λ q. p q.1) d)) ≡ p v
  unfolding get
  contains-filter p k v [] h found = cc
  contains-filter p k v ((j, w) ∷ d) h found = ground (
    arith,
    contains-filter p k v d,
    not-contains-filter (λ q. p q.1) k d,
    e.beq_iff j k,
    e.beq_iff k j,
  )

  pub distinct-filter :
      (p : K × V → Bool) (d : Dict K V)
      → distinct (keys d) ≡ true
      → distinct (keys (filter p d)) ≡ true
  distinct-filter p [] h = refl
  distinct-filter p ((k, v) ∷ d) h = ground (arith, distinct-filter p d, not-contains-filter p k d)

  pub get-append_self :
      (k : K) (v : V) (d : Dict K V) → get k d ≡ none → get k (d ++ (k, v) ∷ []) ≡ some v
  unfolding get
  get-append_self k v [] h = ground (arith, e.beq_iff k k)
  get-append_self k v ((j, w) ∷ d) h = ground (arith, get-append_self k v d)

  pub get-append_ne :
      (k j : K) (v : V) (d : Dict K V)
      → get k d ≡ none
      → e.beq j k ≡ false
      → get k (d ++ (j, v) ∷ []) ≡ none
  unfolding get
  get-append_ne k j v [] h n = ground arith
  get-append_ne k j v ((i, w) ∷ d) h n = ground (arith, get-append_ne k j v d)
