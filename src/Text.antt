-- ===== src/Text.antt =====
-- The methods of Python's `str` that the program calls.
pub mod Laws
pub mod Split
pub mod Decimal
use Prim.Native.Char.{Char, code}
use Prim.Native.String.{[], ◌∷◌, ◌++◌, compare}
use text.Mathlib.Text.{is_le}
use mathlib.Core.List
use fastapi_core.Prelude.{
  ℕ, String, Bool, true, false, not, ◌&&◌, ◌||◌, Option, none, some, List, leb, nat_beq,
  if◌then◌else◌,
}

-- `c.isspace()`, by the code points that Unicode counts as white space.
unfoldable pub is_space : Char → Bool
is_space c =
    let n = code c in
    (leb 9 n && leb n 13)
    || (leb 28 n && leb n 32)
    || nat_beq n 0x85
    || nat_beq n 0xa0
    || nat_beq n 0x1680
    || (leb 0x2000 n && leb n 0x200a)
    || (leb 0x2028 n && leb n 0x2029)
    || nat_beq n 0x202f
    || nat_beq n 0x205f
    || nat_beq n 0x3000

-- `s == ""`
abbrev pub is_nil : String → Bool
is_nil [] = true
is_nil (c ∷ s) = false

unfoldable pub lstrip : String → String
lstrip [] = []
lstrip (c ∷ s) = let rest = lstrip s in if is_space c then rest else c ∷ s

unfoldable pub rstrip : String → String
rstrip [] = []
rstrip (c ∷ s) = let rest = rstrip s in if is_nil rest && is_space c then [] else c ∷ rest

unfoldable pub strip : String → String
unfolding is_space lstrip rstrip
strip s = rstrip (lstrip s)

-- `not s.strip()`
unfoldable pub is_blank : String → Bool
unfolding strip
is_blank s = is_nil (strip s)

abbrev pub on_head : Char → List String → List String
on_head c List.[] = List.◌∷◌ (c ∷ []) List.[]
on_head c (List.◌∷◌ w ws) = List.◌∷◌ (c ∷ w) ws

-- `s.split(sep)` for a separator of one character
unfoldable pub split : ℕ → String → List String
split sep [] = List.◌∷◌ [] List.[]
split sep (c ∷ s) =
    let rest = split sep s in if nat_beq (code c) sep then List.◌∷◌ [] rest else on_head c rest

-- `sep not in s`
unfoldable pub is_free : ℕ → String → Bool
is_free sep [] = true
is_free sep (c ∷ s) = not (nat_beq (code c) sep) && is_free sep s

-- `s.split(sep, 1)[0]`
unfoldable pub before : ℕ → String → String
before sep [] = []
before sep (c ∷ s) = let rest = before sep s in if nat_beq (code c) sep then [] else c ∷ rest

-- `s.startswith(prefix)`
unfoldable pub starts_with : String → String → Bool
starts_with [] s = true
starts_with (c ∷ prefix) [] = false
starts_with (c ∷ prefix) (d ∷ s) = nat_beq (code c) (code d) && starts_with prefix s

-- `s.rsplit(sep, 1)[-1]`
unfoldable pub after_last : ℕ → String → String
unfolding is_free
after_last sep [] = []
after_last sep (c ∷ s) =
    let rest = after_last sep s in
    if not (is_free sep s) then rest else if nat_beq (code c) sep then s else c ∷ s

-- Concatenation, as in an f-string.
infixr 65 ◌<>◌
abbrev pub ◌<>◌ : String → String → String
s <> t = s ++ t

-- `sep.join(words)`
unfoldable pub join : String → List String → String
join sep List.[] = []
join sep (List.◌∷◌ w ws) = elim ws [ List.[] ↦ w | List.◌∷◌ _ _ ↦ w <> sep <> join sep ws ]

-- `sorted(words)`: texts are compared by their code points.
unfoldable pub insert_sorted : String → List String → List String
insert_sorted w List.[] = List.◌∷◌ w List.[]
insert_sorted w (List.◌∷◌ v vs) =
    let rest = insert_sorted w vs in
    if is_le (compare w v) then List.◌∷◌ w (List.◌∷◌ v vs) else List.◌∷◌ v rest

unfoldable pub sorted : List String → List String
unfolding insert_sorted
sorted List.[] = List.[]
sorted (List.◌∷◌ w ws) = insert_sorted w (sorted ws)

-- An optional text that is there and not empty, as in `text or …`.
abbrev pub truthy_text : Option String → Option String
truthy_text none = none
truthy_text (some t) = if is_nil t then none else some t

abbrev begins_word : String → Bool
begins_word [] = false
begins_word (c ∷ s) = not (is_space c)

-- `s.split()`: the words between white space
unfoldable pub words : String → List String
unfolding is_space
words [] = List.[]
words (c ∷ s) =
    let rest = words s in
    if is_space c then rest else if begins_word s then on_head c rest else List.◌∷◌ (c ∷ []) rest
