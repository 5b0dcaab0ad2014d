-- ===== src/Json.antt =====
-- The values of JSON, as Python's `json` writes them and FastAPI's OpenAPI documents hold them.
pub mod Dumps
use fastapi_core.Prelude.{String, Bool, List, [], ◌∷◌, ◌≡◌, refl, ap}
use fastapi_core.Prelude.Int.{ℤ}
use fastapi_core.Dict.{Dict}

mutual
  pub data Json : Type 0 where
    null : Json
    flag : Bool → Json
    number : ℤ → Json
    text : String → Json
    array : Items → Json
    object : Members → Json

  pub data Items : Type 0 where
    nil : Items
    cons : Json → Items → Items

  pub data Members : Type 0 where
    end : Members
    member : String → Json → Members → Members

abbrev pub items : Items → List Json
items nil = []
items (cons v vs) = v ∷ items vs

abbrev pub entries : Members → Dict String Json
entries end = []
entries (member k v ms) = (k, v) ∷ entries ms

abbrev pub of_entries : Dict String Json → Members
of_entries [] = end
of_entries ((k, v) ∷ d) = member k v (of_entries d)

-- A dictionary as a JSON object, with each value written as JSON.
abbrev pub object_of {ℓ} : {A : Type ℓ} → (A → Json) → Dict String A → Members
object_of f [] = end
object_of f ((k, v) ∷ d) = member k (f v) (object_of f d)

pub entries-of_entries : (d : Dict String Json) → entries (of_entries d) ≡ d
entries-of_entries [] = refl
entries-of_entries ((k, v) ∷ d) = ap (λ e. (k, v) ∷ e) (entries-of_entries d)
