-- ===== src/Prelude/Lists.antt =====
-- Lists as Python's sequences and sets.
use Prim.Native.Nat.{ℕ, suc, ◌+◌}
use mathlib.Core.Path.{◌≡◌, refl, ◌∙◌}
use mathlib.Core.Bool.{Bool, true, false, not, ◌&&◌, ◌||◌}
use mathlib.Core.List.{List, [], ◌∷◌, ◌++◌, Memᴰ, reverse, reverse_aux}
use mathlib.Core.Option.{Option, none, some}
use mathlib.Core.Logic.{inl, inr, ◌↔◌}
use native.Mathlib.Omega.{arith}
use fastapi_core.Prelude.Tests.{if◌then◌else◌, Bool-cases}
use fastapi_core.Prelude.Classes.{Eq}

module _ {ℓ} {A : Type ℓ} where
  abbrev pub length : List A → ℕ
  length [] = 0
  length (x ∷ xs) = suc (length xs)

  pub length-append : (xs ys : List A) → length (xs ++ ys) ≡ length xs + length ys
  length-append [] ys = omega arith
  length-append (x ∷ xs) ys = omega (arith, length-append xs ys)

  abbrev pub is_empty : List A → Bool
  is_empty [] = true
  is_empty (x ∷ xs) = false

  abbrev pub all : (A → Bool) → List A → Bool
  all p [] = true
  all p (x ∷ xs) = p x && all p xs

  abbrev pub any : (A → Bool) → List A → Bool
  any p [] = false
  any p (x ∷ xs) = p x || any p xs

  -- `[x for x in xs if p(x)]`
  abbrev pub filter : (A → Bool) → List A → List A
  filter p [] = []
  filter p (x ∷ xs) = let rest = filter p xs in if p x then x ∷ rest else rest

  abbrev pub find : (A → Bool) → List A → Option A
  find p [] = none
  find p (x ∷ xs) = let rest = find p xs in if p x then some x else rest

  pub all-append : (p : A → Bool) (xs ys : List A) → all p (xs ++ ys) ≡ (all p xs && all p ys)
  all-append p [] ys = refl
  all-append p (x ∷ xs) ys = ground (arith, all-append p xs ys)

  pub any-append : (p : A → Bool) (xs ys : List A) → any p (xs ++ ys) ≡ (any p xs || any p ys)
  any-append p [] ys = refl
  any-append p (x ∷ xs) ys = ground (arith, any-append p xs ys)

module _ {ℓ κ} {A : Type ℓ} (P : A → Type κ) where
  -- Every member of the list has the property.
  abbrev pub All : List A → Type κ
  All [] = Unit
  All (x ∷ xs) = P x × All xs

  pub All-append : (xs ys : List A) → All xs → All ys → All (xs ++ ys)
  All-append [] ys _ h = h
  All-append (x ∷ xs) ys (p, g) h = (p, All-append xs ys g h)

module _ {ℓ} {A : Type ℓ} ⦃e : Eq A⦄ where
  -- `a in xs`
  abbrev pub contains : A → List A → Bool
  contains a [] = false
  contains a (x ∷ xs) = e.beq a x || contains a xs

  -- `names.add(a)`
  abbrev pub add : A → List A → List A
  add a xs = if contains a xs then xs else xs ++ a ∷ []

  -- `seen.update(xs)`
  unfoldable pub add_all : List A → List A → List A
  add_all seen [] = seen
  add_all seen (x ∷ xs) = add_all (add x seen) xs

  -- `list(dict.fromkeys(xs))`: the members, each at its first place.
  unfoldable pub dedupe : List A → List A
  unfolding add_all
  dedupe xs = add_all [] xs

  -- `set(xs).issubset(ys)`
  abbrev pub subset : List A → List A → Bool
  subset xs ys = all (λ x. contains x ys) xs

  -- No member stands twice.
  abbrev pub distinct : List A → Bool
  distinct [] = true
  distinct (x ∷ xs) = not (contains x xs) && distinct xs

  pub contains-append :
      (a : A) (xs ys : List A) → contains a (xs ++ ys) ≡ (contains a xs || contains a ys)
  contains-append a [] ys = refl
  contains-append a (x ∷ xs) ys = ground (arith, contains-append a xs ys)

pub All-map {ℓ κ μ} :
    {A : Type ℓ} {P : A → Type κ} {Q : A → Type μ}
    → ((a : A) → P a → Q a)
    → (xs : List A) → All P xs
    → All Q xs
All-map f [] h = tt
All-map f (x ∷ xs) h = (f x h.0, All-map f xs h.1)

module _ {ℓ} {A : Type ℓ} (p : A → Bool) where
  pub find-any :
      (xs : List A) → any p xs ≡ true → (x : A) × (find p xs ≡ some x) × (p x ≡ true) × Memᴰ x xs
  find-any [] h = cc
  find-any (x ∷ xs) h = elim (Bool-cases (p x)) [
    | inl here ↦ (x, rw here, here, Memᴰ.head refl)
    | inr later ↦
        let (y, found, good, listed) = find-any xs (ground arith) in
        (y, rw later found, good, Memᴰ.tail listed)
  ]

module _ {ℓ} {A : Type ℓ} ⦃e : Eq A⦄ where
  -- The members of a set that a loop fills, none of which may be there when it comes.
  abbrev pub all_new : List A → List A → Bool
  all_new seen [] = true
  all_new seen (x ∷ xs) = not (contains x seen) && all_new (add x seen) xs

  pub contains-add : (a x : A) (xs : List A) → contains a (add x xs) ≡ (e.beq a x || contains a xs)
  contains-add a x xs =
      ground (arith, contains-append a xs (x ∷ []), e.beq_iff a x, contains_self x xs)
    where
      contains_self :
          (x : A) (xs : List A) → contains x xs ≡ true → e.beq a x ≡ true → contains a xs ≡ true
      contains_self x xs h k = rw ((e.beq_iff a x).0 k) h

  not-contains-add :
      (x : A) (seen xs : List A)
      → all (λ a. not (contains a (add x seen))) xs
        ≡ (not (contains x xs) && all (λ a. not (contains a seen)) xs)
  not-contains-add x seen [] = refl
  not-contains-add x seen (y ∷ xs) =
      ground
        (arith, not-contains-add x seen xs, contains-add y x seen, e.beq_iff x y, e.beq_iff y x)

  -- Such a loop meets no member twice and none that was there before.
  pub all_new_lem :
      (seen xs : List A) → all_new seen xs ≡ (distinct xs && all (λ a. not (contains a seen)) xs)
  all_new_lem seen [] = refl
  all_new_lem seen (x ∷ xs) =
      ground (arith, all_new_lem (add x seen) xs, not-contains-add x seen xs)

  pub all_new-nil : (xs : List A) → all_new [] xs ≡ distinct xs
  all_new-nil xs = all_new_lem [] xs ∙ ground (arith, nothing_seen xs)
    where
      nothing_seen : (xs : List A) → all (λ a. not (contains a [])) xs ≡ true
      nothing_seen [] = refl
      nothing_seen (y ∷ ys) = nothing_seen ys

module _ {ℓ κ} {A : Type ℓ} (P : A → Type κ) where
  All-reverse_aux : (xs ys : List A) → All P xs → All P ys → All P (reverse_aux xs ys)
  All-reverse_aux [] ys _ k = k
  All-reverse_aux (x ∷ xs) ys (p, h) k = All-reverse_aux xs (x ∷ ys) h (p, k)

  pub All-reverse : (xs : List A) → All P xs → All P (reverse xs)
  All-reverse xs h = All-reverse_aux xs [] h tt

module _ {ℓ} {A : Type ℓ} ⦃e : Eq A⦄ where
  contains-add_all :
      (a : A) (seen xs : List A) → contains a (add_all seen xs) ≡ (contains a seen || contains a xs)
  unfolding add_all
  contains-add_all a seen [] = ground arith
  contains-add_all a seen (x ∷ xs) =
      ground (arith, contains-add_all a (add x seen) xs, contains-add a x seen)

  pub distinct-concat :
      (xs : List A) (x : A) → distinct (xs ++ x ∷ []) ≡ (distinct xs && not (contains x xs))
  distinct-concat [] x = refl
  distinct-concat (y ∷ xs) x =
      ground
        (arith, distinct-concat xs x, contains-append y xs (x ∷ []), e.beq_iff x y, e.beq_iff y x)

  distinct-add_all : (seen xs : List A) → distinct seen ≡ true → distinct (add_all seen xs) ≡ true
  unfolding add_all
  distinct-add_all seen [] h = h
  distinct-add_all seen (x ∷ xs) h =
      distinct-add_all (add x seen) xs (ground (arith, distinct-concat seen x))

  -- Removing duplicates keeps the members, and leaves each once.
  pub contains-dedupe : (a : A) (xs : List A) → contains a (dedupe xs) ≡ contains a xs
  unfolding dedupe
  contains-dedupe a xs = contains-add_all a [] xs

  pub distinct-dedupe : (xs : List A) → distinct (dedupe xs) ≡ true
  unfolding dedupe
  distinct-dedupe xs = distinct-add_all [] xs refl

  subset_sound :
      (xs ys : List A) → subset xs ys ≡ true → (a : A) → contains a xs ≡ true → contains a ys ≡ true
  subset_sound [] ys h a m = cc
  subset_sound (x ∷ xs) ys h a m = elim (Bool-cases (e.beq a x)) [
    | inl same ↦ rw ((e.beq_iff a x).0 same) (ground arith)
    | inr other ↦ subset_sound xs ys (ground arith) a (ground arith)
  ]

  subset_complete :
      (xs ys : List A)
      → ((a : A) → contains a xs ≡ true → contains a ys ≡ true)
      → subset xs ys ≡ true
  subset_complete [] ys h = refl
  subset_complete (x ∷ xs) ys h =
      ground (arith, h x, e.beq_iff x x, subset_complete xs ys (λ a m. h a (ground arith)))

  pub subset_iff :
      (xs ys : List A)
      → (subset xs ys ≡ true) ↔ ((a : A) → contains a xs ≡ true → contains a ys ≡ true)
  subset_iff xs ys = (subset_sound xs ys, subset_complete xs ys)

module _ {ℓ} {A : Type ℓ} ⦃e : Eq A⦄ where
  pub all_new-append :
      (seen xs ys : List A)
      → all_new seen (xs ++ ys) ≡ (all_new seen xs && all_new (add_all seen xs) ys)
  unfolding add_all
  all_new-append seen [] ys = refl
  all_new-append seen (x ∷ xs) ys = ground (arith, all_new-append (add x seen) xs ys)

  pub add_all-append :
      (seen xs ys : List A) → add_all seen (xs ++ ys) ≡ add_all (add_all seen xs) ys
  unfolding add_all
  add_all-append seen [] ys = refl
  add_all-append seen (x ∷ xs) ys = add_all-append (add x seen) xs ys
