-- ===== src/Prelude/Counts.antt =====
-- The number of different members of a list.
use Prim.Native.Nat.{◌≤◌, ◌+◌}
use mathlib.Core.Path.{◌≡◌}
use mathlib.Core.List.{List, [], ◌∷◌}
use native.Mathlib.Omega.{arith}
use fastapi_core.Prelude.Tests.{nat_beq}
use fastapi_core.Prelude.Classes.{Eq}
use fastapi_core.Prelude.Lists.{
  length, length-append, add, add_all, dedupe, distinct, all_new, all_new-nil,
}

module _ {ℓ} {A : Type ℓ} ⦃e : Eq A⦄ where
  length-add_all :
      (seen xs : List A)
      → (length (add_all seen xs) ≤ length seen + length xs)
        × (nat_beq (length seen + length xs) (length (add_all seen xs)) ≡ all_new seen xs)
  unfolding add_all
  length-add_all seen [] = (omega arith, ground arith)
  length-add_all seen (x ∷ xs) =
      let ih = length-add_all (add x seen) xs in
      (
        ground (arith, ih.0, length-append seen (x ∷ [])),
        ground (arith, ih.0, ih.1, length-append seen (x ∷ [])),
      )

  -- `len(xs) == len(set(xs))`
  pub length-dedupe : (xs : List A) → nat_beq (length xs) (length (dedupe xs)) ≡ distinct xs
  unfolding dedupe
  length-dedupe xs = ground (arith, (length-add_all [] xs).1, all_new-nil xs)
