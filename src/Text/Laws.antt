-- ===== src/Text/Laws.antt =====
-- Laws of the text operations.
use Prim.Native.Char.{Char, code}
use Prim.Native.String.{[], ◌∷◌, ◌++◌}
use Prim.Native.String.append
use text.Mathlib.TextLemmas.{append_assoc as text_assoc}
use fastapi_core.Prelude.{ℕ, String, true, ◌≡◌, refl, arith, nat_beq_iff}
use fastapi_core.Text.{is_free, before, ◌<>◌}

-- The part before a separator that a clean text is followed by is that text.
pub before-append :
    (sep : ℕ) (s : String) (c : Char) (t : String)
    → is_free sep s ≡ true
    → code c ≡ sep
    → before sep (s ++ (c ∷ t)) ≡ s
unfolding is_free before
before-append sep [] c t h e = rw append.nil (ground (arith, nat_beq_iff (code c) sep))
before-append sep (d ∷ s) c t h e = rw append.cons (ground (arith, before-append sep s c t))

pub before_dot : (s t : String) → is_free b'.' s ≡ true → before b'.' (s <> "." <> t) ≡ s
before_dot s t h = rw (append.cons "." [] t) (before-append b'.' s "." ([] ++ t) h refl)

pub <>_assoc : (s t u : String) → (s <> t) <> u ≡ s <> t <> u
<>_assoc s t u = text_assoc s t u
