-- ===== src/Dict/Update.antt =====
-- What the operations that change a dictionary do to its keys, and laws of `update`: the later wins.
use fastapi_core.Prelude.{
  Eq, [], ◌∷◌, true, or_else, ◌≡◌, refl, distinct, ◌||◌, arith, contains, subset, false, List,
}
use fastapi_core.Dict.{Dict, keys, get, put, remove, update}
use fastapi_core.Dict.Laws.{get-put, has-contains}

module _ {ℓ κ} {K : Type ℓ} {V : Type κ} ⦃e : Eq K⦄ where
  contains-put :
      (k j : K) (v : V) (d : Dict K V)
      → contains j (keys (put k v d)) ≡ (e.beq j k || contains j (keys d))
  unfolding put
  contains-put k j v [] = ground arith
  contains-put k j v ((i, w) ∷ d) =
      ground (arith, contains-put k j v d, e.beq_iff i k, e.beq_iff j k, e.beq_iff j i)

  pub distinct-put :
      (k : K) (v : V) (d : Dict K V) → distinct (keys d) ≡ true → distinct (keys (put k v d)) ≡ true
  unfolding put
  distinct-put k v [] h = refl
  distinct-put k v ((i, w) ∷ d) h =
      ground (arith, distinct-put k v d, contains-put k i v d, e.beq_iff i k)

  pub distinct-update :
      (d o : Dict K V) → distinct (keys d) ≡ true → distinct (keys (update d o)) ≡ true
  unfolding update
  distinct-update d [] h = h
  distinct-update d ((k, v) ∷ o) h = distinct-update (put k v d) o (distinct-put k v d h)

  pub get-update :
      (k : K) (d o : Dict K V)
      → distinct (keys o) ≡ true
      → get k (update d o) ≡ or_else (get k o) (get k d)
  unfolding get update
  get-update k d [] h = refl
  get-update k d ((j, v) ∷ o) h =
      ground (arith, get-update k (put j v d) o, get-put j k v d, e.beq_iff j k, has-contains k o)

  -- Names that are gone leave the others.
  not-contains-remove :
      (k j : K) (d : Dict K V)
      → contains j (keys d) ≡ false
      → contains j (keys (remove k d)) ≡ false
  unfolding remove
  not-contains-remove k j [] h = refl
  not-contains-remove k j ((i, w) ∷ d) h = ground (arith, not-contains-remove k j d)

  pub distinct-remove :
      (k : K) (d : Dict K V) → distinct (keys d) ≡ true → distinct (keys (remove k d)) ≡ true
  unfolding remove
  distinct-remove k [] h = refl
  distinct-remove k ((i, w) ∷ d) h = ground (arith, distinct-remove k d, not-contains-remove k i d)

  pub subset-remove :
      (names : List K) (k : K) (d : Dict K V)
      → subset (keys d) names ≡ true
      → subset (keys (remove k d)) names ≡ true
  unfolding remove
  subset-remove names k [] h = refl
  subset-remove names k ((i, w) ∷ d) h = ground (arith, subset-remove names k d)

  pub subset-put :
      (names : List K) (k : K) (v : V) (d : Dict K V)
      → contains k names ≡ true
      → subset (keys d) names ≡ true
      → subset (keys (put k v d)) names ≡ true
  unfolding put
  subset-put names k v [] known h = ground arith
  subset-put names k v ((i, w) ∷ d) known h = ground (arith, subset-put names k v d)
