-- ===== src/Json/Dumps/Lines.antt =====
-- What a text of JSON has no characters of.
use Prim.Native.Char.{Char, code}
use Prim.Native.Nat.{◌/◌, ◌%◌}
use Prim.Native.String.{compare}
use package.text.Mathlib.Text.{is_le}
use Prim.Native.String.append
use fastapi_core.Prelude.{
  ℕ, zero, suc, String, Bool, true, false, ◌&&◌, ◌≡◌, refl, List, [], ◌∷◌, All, all, some,
  Option-cases, sym, nat_eq, ltb, leb, nat_beq, Bool-cases, inl, inr, ap, ◌∙◌, arith,
}
use fastapi_core.Prelude.Int.{ℤ, pos, negsuc}
use fastapi_core.Text.{◌<>◌, join}
use fastapi_core.Text.Decimal.{str, decimal, digit, digit_of, decimal_digits}
use fastapi_core.Dict.{Dict, get, values}
use fastapi_core.Json.{
  Json, null, flag, number, text, array, object, Items, nil, cons, Members, end, member,
}
use fastapi_core.Json.Dumps.{
  escape_char, escape, quoted, int_text, insert_entry, sort_entries, entry_texts, dumps,
  dumps_items, dumps_members, hex_digit, hex_digits, escapes, in_hex,
}

-- The text has no control character, such as a line feed, a carriage return or an escape.
unfoldable pub is_plain : String → Bool
is_plain String.[] = true
is_plain (String.◌∷◌ c s) = leb 32 (code c) && is_plain s

pub is_plain-append : (s t : String) → is_plain (s <> t) ≡ (is_plain s && is_plain t)
unfolding is_plain
is_plain-append String.[] t = rw append.nil refl
is_plain-append (String.◌∷◌ c s) t = rw append.cons (ground (arith, is_plain-append s t))

plain_append : (s t : String) → is_plain s ≡ true → is_plain t ≡ true → is_plain (s <> t) ≡ true
plain_append s t h k = is_plain-append s t ∙ ground arith

is_plain-digit_of :
    (ds : List String) (n : ℕ) → all is_plain ds ≡ true → is_plain (digit_of ds n) ≡ true
unfolding is_plain
is_plain-digit_of [] n h = refl
is_plain-digit_of (d ∷ ds) zero h = ground arith
is_plain-digit_of (d ∷ ds) (suc n) h = is_plain-digit_of ds n (ground arith)

is_plain-digit : (n : ℕ) → is_plain (digit n) ≡ true
unfolding is_plain
is_plain-digit n = is_plain-digit_of decimal_digits n refl

is_plain-hex_digit : (n : ℕ) → is_plain (hex_digit n) ≡ true
unfolding is_plain
is_plain-hex_digit n = is_plain-digit_of hex_digits n refl

is_plain-get :
    (k : ℕ) (d : Dict ℕ String) (s : String)
    → all is_plain (values d) ≡ true
    → get k d ≡ some s
    → is_plain s ≡ true
unfolding get
is_plain-get k [] s h found = cc
is_plain-get k ((j, v) ∷ d) s h found = elim (Bool-cases (nat_beq j k)) [
  | inl here ↦ let e : v ≡ s = ground arith in ap is_plain (sym e) ∙ ground arith
  | inr later ↦ is_plain-get k d s (ground arith) (ground arith)
]

is_plain-in_hex : (n : ℕ) → is_plain (in_hex n) ≡ true
unfolding is_plain
is_plain-in_hex n = plain_append "\\u00" (hex_digit (n / 16) <> hex_digit (n % 16)) refl (
    plain_append (hex_digit (n / 16)) (hex_digit (n % 16)) (is_plain-hex_digit (n / 16))
      (is_plain-hex_digit (n % 16)))

is_plain-escape_char : (c : Char) → is_plain (escape_char c) ≡ true
unfolding is_plain escape_char
is_plain-escape_char c = elim (Option-cases (get (code c) escapes)) [
  | inr (escaped, found) ↦
      rw (found, escape_char) (is_plain-get (code c) escapes escaped refl found)
  | inl none_found ↦ elim (Bool-cases (ltb (code c) 32)) [
    | inl control ↦ rw (none_found, escape_char) (rw control (is_plain-in_hex (code c)))
    | inr other ↦ rw (none_found, escape_char) (rw other (ground arith))
  ]
]

is_plain-escape : (s : String) → is_plain (escape s) ≡ true
unfolding is_plain escape
is_plain-escape String.[] = refl
is_plain-escape (String.◌∷◌ c s) =
    plain_append (escape_char c) (escape s) (is_plain-escape_char c) (is_plain-escape s)

is_plain-quoted : (s : String) → is_plain (quoted s) ≡ true
unfolding is_plain quoted
is_plain-quoted s =
    plain_append "\"" (escape s <> "\"") refl
      (plain_append (escape s) "\"" (is_plain-escape s) refl)

is_plain-decimal : (fuel n : ℕ) → is_plain (decimal fuel n) ≡ true
unfolding is_plain decimal
is_plain-decimal zero n = refl
is_plain-decimal (suc fuel) n = elim (Bool-cases (ltb n 10)) [
  | inl small ↦ rw small (is_plain-digit n)
  | inr large ↦ rw large (
      plain_append (decimal fuel (n / 10)) (digit (n % 10)) (is_plain-decimal fuel (n / 10))
        (is_plain-digit (n % 10)))
]

is_plain-int_text : (n : ℤ) → is_plain (int_text n) ≡ true
unfolding is_plain int_text str
is_plain-int_text (pos n) = is_plain-decimal (suc n) n
is_plain-int_text (negsuc n) =
    plain_append "-" (str (suc n)) refl (is_plain-decimal (suc (suc n)) (suc n))

is_plain-join :
    (ws : List String) → All (λ w. is_plain w ≡ true) ws → is_plain (join ", " ws) ≡ true
unfolding is_plain join
is_plain-join [] h = refl
is_plain-join (w ∷ []) h = h.0
is_plain-join (w ∷ v ∷ ws) h =
    plain_append w (", " <> join ", " (v ∷ ws)) h.0
      (plain_append ", " (join ", " (v ∷ ws)) refl (is_plain-join (v ∷ ws) h.1))

abbrev ArePlain : Dict String String → Type 0
ArePlain d = All (λ e. is_plain e.1 ≡ true) d

insert_entry-ArePlain :
    (k v : String) (d : Dict String String)
    → is_plain v ≡ true
    → ArePlain d
    → ArePlain (insert_entry (k, v) d)
unfolding insert_entry
insert_entry-ArePlain k v [] h p = (h, tt)
insert_entry-ArePlain k v ((j, w) ∷ d) h p = elim (Bool-cases (is_le (compare k j))) [
  | inl before ↦ rw before (h, p)
  | inr after ↦ rw after (p.0, insert_entry-ArePlain k v d h p.1)
]

sort_entries-ArePlain : (d : Dict String String) → ArePlain d → ArePlain (sort_entries d)
unfolding sort_entries
sort_entries-ArePlain [] p = tt
sort_entries-ArePlain ((k, v) ∷ d) p =
    insert_entry-ArePlain k v (sort_entries d) p.0 (sort_entries-ArePlain d p.1)

entry_texts-plain :
    (d : Dict String String) → ArePlain d → All (λ w. is_plain w ≡ true) (entry_texts d)
unfolding is_plain
entry_texts-plain [] p = tt
entry_texts-plain ((k, v) ∷ d) p = (
  plain_append (quoted k) (": " <> v) (is_plain-quoted k) (plain_append ": " v refl p.0),
  entry_texts-plain d p.1,
)

mutual
  unfolding is_plain dumps dumps_items dumps_members

  plain : (v : Json) → is_plain (dumps v) ≡ true
  plain null = refl
  plain (flag true) = refl
  plain (flag false) = refl
  plain (number n) = is_plain-int_text n
  plain (text t) = is_plain-quoted t
  plain (array vs) = plain_append "[" (join ", " (dumps_items vs) <> "]") refl (
      plain_append (join ", " (dumps_items vs)) "]"
        (is_plain-join (dumps_items vs) (plain_items vs)) refl)
  plain (object ms) =
      let entries = sort_entries (dumps_members ms) in
      plain_append "{" (join ", " (entry_texts entries) <> "}") refl (
        plain_append (join ", " (entry_texts entries)) "}"
          (is_plain-join (entry_texts entries) (
            entry_texts-plain entries
              (sort_entries-ArePlain (dumps_members ms) (plain_members ms))))
          refl)

  plain_items : (vs : Items) → All (λ w. is_plain w ≡ true) (dumps_items vs)
  plain_items nil = tt
  plain_items (cons v vs) = (plain v, plain_items vs)

  plain_members : (ms : Members) → ArePlain (dumps_members ms)
  plain_members end = tt
  plain_members (member k v ms) = (plain v, plain_members ms)

-- Whatever the texts in a value, its JSON has no control characters.
pub is_plain-dumps : (v : Json) → is_plain (dumps v) ≡ true
is_plain-dumps v = plain v
