-- ===== src/Text/Split.antt =====
-- Stripping and splitting.
use Prim.Native.Char.{Char, code}
use Prim.Native.String.{[], ◌∷◌, ◌++◌}
use Prim.Native.String.append
use mathlib.Core.List.{List}
use fastapi_core.Prelude.{
  ℕ, String, true, false, ◌≡◌, refl, ap, ◌∙◌, ◌⊎◌, inl, inr, arith, nat_beq, nat_beq_iff, All,
  Bool-cases,
}
use fastapi_core.Text.{is_space, lstrip, rstrip, strip, is_free, split, on_head, join}

rstrip_idem : (s : String) → rstrip (rstrip s) ≡ rstrip s
unfolding rstrip
rstrip_idem [] = refl
rstrip_idem (c ∷ s) = ground (arith, rstrip_idem s)

rstrip-cons : (c : Char) (s : String) → is_space c ≡ false → rstrip (c ∷ s) ≡ c ∷ rstrip s
unfolding rstrip
rstrip-cons c s h = ground arith

lstrip-cons : (c : Char) (s : String) → is_space c ≡ false → lstrip (c ∷ s) ≡ c ∷ s
unfolding lstrip
lstrip-cons c s h = ground arith

lstrip_cases :
    (s : String)
    → (lstrip s ≡ []) ⊎ ((c : Char) × (t : String) × (lstrip s ≡ c ∷ t) × (is_space c ≡ false))
unfolding lstrip
lstrip_cases [] = inl refl
lstrip_cases (c ∷ s) = elim (Bool-cases (is_space c)) [
  | inl space ↦ rw space (lstrip_cases s)
  | inr solid ↦ inr (c, s, rw solid, solid)
]

pub strip_idem : (s : String) → strip (strip s) ≡ strip s
unfolding strip
strip_idem s = elim (lstrip_cases s) [
  | inl nothing ↦ rw nothing refl
  | inr (c, t, found, solid) ↦
      rw (found, rstrip-cons c t solid, lstrip-cons c (rstrip t) solid)
        (rstrip-cons c (rstrip t) solid ∙ ap (λ u. c ∷ u) (rstrip_idem t))
]

module _ (sep : ℕ) where
  is_free-lstrip : (s : String) → is_free sep s ≡ true → is_free sep (lstrip s) ≡ true
  unfolding is_free lstrip
  is_free-lstrip [] h = refl
  is_free-lstrip (c ∷ s) h = ground (arith, is_free-lstrip s)

  is_free-rstrip : (s : String) → is_free sep s ≡ true → is_free sep (rstrip s) ≡ true
  unfolding is_free rstrip
  is_free-rstrip [] h = refl
  is_free-rstrip (c ∷ s) h = ground (arith, is_free-rstrip s)

  pub is_free-strip : (s : String) → is_free sep s ≡ true → is_free sep (strip s) ≡ true
  unfolding strip
  is_free-strip s h = is_free-rstrip (lstrip s) (is_free-lstrip s h)

  IsFree-on_head :
      (c : Char) (ws : List String)
      → nat_beq (code c) sep ≡ false
      → All (λ w. is_free sep w ≡ true) ws
      → All (λ w. is_free sep w ≡ true) (on_head c ws)
  unfolding is_free
  IsFree-on_head c List.[] h g = (ground arith, tt)
  IsFree-on_head c (List.◌∷◌ w ws) h g = (ground arith, g.1)

  pub split-is_free : (s : String) → All (λ w. is_free sep w ≡ true) (split sep s)
  unfolding split
  split-is_free [] = (unfold is_free in refl, tt)
  split-is_free (c ∷ s) = elim (Bool-cases (nat_beq (code c) sep)) [
    | inl here ↦ rw here (unfold is_free in refl, split-is_free s)
    | inr other ↦ rw other (IsFree-on_head c (split sep s) other (split-is_free s))
  ]

  split-free : (w : String) → is_free sep w ≡ true → split sep w ≡ List.◌∷◌ w List.[]
  unfolding split is_free
  split-free [] h = refl
  split-free (c ∷ w) h = ground (arith, split-free w)

  split-append :
      (w : String) (c : Char) (t : String)
      → is_free sep w ≡ true
      → code c ≡ sep
      → split sep (w ++ (c ∷ t)) ≡ List.◌∷◌ w (split sep t)
  unfolding split is_free
  split-append [] c t h e = rw append.nil (ground (arith, nat_beq_iff (code c) sep))
  split-append (d ∷ w) c t h e = rw append.cons (ground (arith, split-append w c t))

  -- Splitting gives back the words that were joined, if there are some and none has the separator.
  pub split-join :
      (c : Char) (w : String) (ws : List String)
      → code c ≡ sep
      → All (λ v. is_free sep v ≡ true) (List.◌∷◌ w ws)
      → split sep (join (c ∷ []) (List.◌∷◌ w ws)) ≡ List.◌∷◌ w ws
  unfolding join
  split-join c w List.[] e h = split-free w h.0
  split-join c w (List.◌∷◌ v vs) e h =
      rw (append.cons c [] (join (c ∷ []) (List.◌∷◌ v vs)), append.nil)
        (split-append w c (join (c ∷ []) (List.◌∷◌ v vs)) h.0 e
          ∙ ap (λ us. List.◌∷◌ w us) (split-join c v vs e h.1))

  is_free-append :
      (s t : String) → is_free sep s ≡ true → is_free sep t ≡ true → is_free sep (s ++ t) ≡ true
  unfolding is_free
  is_free-append [] t h k = rw append.nil k
  is_free-append (c ∷ s) t h k = rw append.cons (ground (arith, is_free-append s t))

  pub is_free-join :
      (glue : String) (ws : List String)
      → is_free sep glue ≡ true
      → All (λ w. is_free sep w ≡ true) ws
      → is_free sep (join glue ws) ≡ true
  unfolding join
  is_free-join glue List.[] g h = unfold is_free in refl
  is_free-join glue (List.◌∷◌ w List.[]) g h = h.0
  is_free-join glue (List.◌∷◌ w (List.◌∷◌ v vs)) g h =
      is_free-append w _ h.0 (is_free-append glue _ g (is_free-join glue (List.◌∷◌ v vs) g h.1))
