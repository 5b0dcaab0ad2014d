-- ===== src/Json/Dumps.antt =====
-- `json.dumps(value, ensure_ascii=False, sort_keys=True)`. Numbers are integers.
pub mod Lines
use Prim.Native.Char.{Char, code}
use Prim.Native.Nat.{◌/◌, ◌%◌}
use Prim.Native.String.{compare}
use Prim.Native.String
use package.text.Mathlib.Text.{is_le}
use fastapi_core.Prelude.{
  nat_eq, ℕ, zero, suc, ◌+◌, String, Bool, true, false, List, [], ◌∷◌, Option, none, some, ltb,
  nat_beq, if◌then◌else◌,
}
use fastapi_core.Prelude.Int.{ℤ, pos, negsuc}
use fastapi_core.Text.{◌<>◌, join}
use fastapi_core.Text.Decimal.{str, digit_of}
use fastapi_core.Dict.{Dict, get}
use fastapi_core.Json.{
  Json, null, flag, number, text, array, object, Items, nil, cons, Members, end, member,
}

abbrev pub hex_digits : List String
hex_digits =
    "0" ∷ "1" ∷ "2" ∷ "3" ∷ "4" ∷ "5" ∷ "6" ∷ "7" ∷ "8" ∷ "9" ∷ "a" ∷ "b" ∷ "c" ∷ "d" ∷ "e" ∷ "f"
    ∷ []

abbrev pub hex_digit : ℕ → String
hex_digit n = digit_of hex_digits n

abbrev pub escapes : Dict ℕ String
escapes =
    (0x22, "\\\"")
    ∷ (0x5c, "\\\\")
    ∷ (10, "\\n")
    ∷ (13, "\\r")
    ∷ (9, "\\t")
    ∷ (12, "\\f")
    ∷ (8, "\\b")
    ∷ []

abbrev pub in_hex : ℕ → String
in_hex n = "\\u00" <> hex_digit (n / 16) <> hex_digit (n % 16)

-- A character of a text: those that JSON escapes, and the others as they are.
unfoldable pub escape_char : Char → String
escape_char c = elim (get (code c) escapes) [
  | some escaped ↦ escaped
  | none ↦ if ltb (code c) 32 then in_hex (code c) else String.◌∷◌ c String.[]
]

unfoldable pub escape : String → String
unfolding escape_char
escape String.[] = ""
escape (String.◌∷◌ c s) = escape_char c <> escape s

unfoldable pub quoted : String → String
unfolding escape
quoted s = "\"" <> escape s <> "\""

unfoldable pub int_text : ℤ → String
int_text (pos n) = str n
int_text (negsuc n) = "-" <> str (suc n)

-- `sorted(d.items())` by the keys, which are different.
unfoldable pub insert_entry : String × String → Dict String String → Dict String String
insert_entry (k, v) [] = (k, v) ∷ []
insert_entry (k, v) ((j, w) ∷ d) =
    let rest = insert_entry (k, v) d in
    if is_le (compare k j) then (k, v) ∷ (j, w) ∷ d else (j, w) ∷ rest

unfoldable pub sort_entries : Dict String String → Dict String String
unfolding insert_entry
sort_entries [] = []
sort_entries (e ∷ d) = insert_entry e (sort_entries d)

abbrev pub entry_texts : Dict String String → List String
entry_texts [] = []
entry_texts ((k, v) ∷ d) = (quoted k <> ": " <> v) ∷ entry_texts d

unfoldable mutual
  pub dumps : Json → String
  dumps null = "null"
  dumps (flag true) = "true"
  dumps (flag false) = "false"
  dumps (number n) = int_text n
  dumps (text t) = quoted t
  dumps (array vs) = "[" <> join ", " (dumps_items vs) <> "]"
  dumps (object ms) = "{" <> join ", " (entry_texts (sort_entries (dumps_members ms))) <> "}"

  pub dumps_items : Items → List String
  dumps_items nil = []
  dumps_items (cons v vs) = dumps v ∷ dumps_items vs

  -- The members with their values as text.
  pub dumps_members : Members → Dict String String
  dumps_members end = []
  dumps_members (member k v ms) = (k, dumps v) ∷ dumps_members ms
