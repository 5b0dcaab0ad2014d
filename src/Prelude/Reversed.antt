-- ===== src/Prelude/Reversed.antt =====
-- What a reversed list has in common with the list.
use mathlib.Core.Path.{◌≡◌, refl}
use mathlib.Core.Bool.{Bool, true, not, ◌&&◌, ◌||◌}
use mathlib.Core.List.{List, [], ◌∷◌, map, reverse, reverse_aux}
use native.Mathlib.Omega.{arith}
use fastapi_core.Prelude.Classes.{Eq}
use fastapi_core.Prelude.Lists.{all, any, contains, distinct}

module _ {ℓ} {A : Type ℓ} (p : A → Bool) where
  any-reverse_aux : (xs ys : List A) → any p (reverse_aux xs ys) ≡ (any p xs || any p ys)
  any-reverse_aux [] ys = refl
  any-reverse_aux (x ∷ xs) ys = ground (arith, any-reverse_aux xs (x ∷ ys))

  pub any-reverse : (xs : List A) → any p (reverse xs) ≡ any p xs
  any-reverse xs = ground (arith, any-reverse_aux xs [])

module _ {ℓ κ} {A : Type ℓ} {B : Type κ} where
  map-reverse_aux :
      (f : A → B) (xs ys : List A) → map f (reverse_aux xs ys) ≡ reverse_aux (map f xs) (map f ys)
  map-reverse_aux f [] ys = refl
  map-reverse_aux f (x ∷ xs) ys = map-reverse_aux f xs (x ∷ ys)

  pub map-reverse : (f : A → B) (xs : List A) → map f (reverse xs) ≡ reverse (map f xs)
  map-reverse f xs = map-reverse_aux f xs []

module _ {ℓ} {A : Type ℓ} ⦃e : Eq A⦄ where
  new-cons :
      (y : A) (xs ys : List A)
      → all (λ x. not (contains x (y ∷ ys))) xs
        ≡ (not (contains y xs) && all (λ x. not (contains x ys)) xs)
  new-cons y [] ys = refl
  new-cons y (x ∷ xs) ys = ground (arith, new-cons y xs ys, e.beq_iff x y, e.beq_iff y x)

  new-nil : (xs : List A) → all (λ x. not (contains x [])) xs ≡ true
  new-nil [] = refl
  new-nil (x ∷ xs) = ground (arith, new-nil xs)

  distinct-reverse_aux :
      (xs ys : List A)
      → distinct (reverse_aux xs ys)
        ≡ (distinct xs && (distinct ys && all (λ x. not (contains x ys)) xs))
  distinct-reverse_aux [] ys = ground arith
  distinct-reverse_aux (x ∷ xs) ys =
      ground (arith, distinct-reverse_aux xs (x ∷ ys), new-cons x xs ys)

  pub distinct-reverse : (xs : List A) → distinct (reverse xs) ≡ distinct xs
  distinct-reverse xs = ground (arith, distinct-reverse_aux xs [], new-nil xs)
