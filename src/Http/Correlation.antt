-- ===== src/Http/Correlation.antt =====
-- `CorrelationIdMiddleware` of fastapi_core/http.py.
use Prim.Native.Char.{Char, code}
use fastapi_core.Prelude.{
  ℕ, String, Bool, true, ◌&&◌, ◌||◌, ◌≡◌, refl, Option, none, some, List, [], ◌∷◌, map, All, leb,
  nat_beq, suc, if◌then◌else◌, Bool-cases, inl, inr, string_eq,
}
use fastapi_core.Dict.{Dict, get, put}
use fastapi_core.Dict.Laws.{get-put_self}

-- `[A-Za-z0-9._:-]`
unfoldable pub is_id_char : Char → Bool
is_id_char c =
    let n = code c in
    (leb 65 n && leb n 90)
    || (leb 97 n && leb n 122)
    || (leb 48 n && leb n 57)
    || nat_beq n 46
    || nat_beq n 95
    || nat_beq n 58
    || nat_beq n 45

abbrev length : String → ℕ
length String.[] = 0
length (String.◌∷◌ c s) = suc (length s)

abbrev are_id_chars : String → Bool
are_id_chars String.[] = true
are_id_chars (String.◌∷◌ c s) = is_id_char c && are_id_chars s

-- `_CORRELATION_ID_PATTERN.fullmatch`
unfoldable pub is_correlation_id : String → Bool
unfolding is_id_char
is_correlation_id s = leb 1 (length s) && leb (length s) 128 && are_id_chars s

-- A message that the application sends. Header names are compared in lower case, so a dictionary by
-- them is what `MutableHeaders` is here.
pub data Message : Type 0 where
  response_start : ℕ → Dict String String → Message
  response_body : Bool → Message
  other_message : Message

-- The id of a request: the one that came, if it is there and well formed; else a new one.
unfoldable pub correlation_id_of : Option String → String → String
unfolding is_correlation_id
correlation_id_of none uuid = uuid
correlation_id_of (some incoming) uuid = if is_correlation_id incoming then incoming else uuid

unfoldable pub send_with_correlation_id : String → String → Message → Message
send_with_correlation_id header_name correlation_id (response_start status headers) =
    response_start status (put header_name correlation_id headers)
send_with_correlation_id header_name correlation_id message = message

-- A request of type http: the application gets the id, and what it sends is passed on.
unfoldable pub call : String → Option String → String → (String → List Message) → List Message
unfolding correlation_id_of send_with_correlation_id
call header_name incoming uuid app =
    let correlation_id = correlation_id_of incoming uuid in
    map (send_with_correlation_id header_name correlation_id) (app correlation_id)

abbrev pub Carries : String → String → Message → Type 0
Carries header_name id (response_start status headers) = get header_name headers ≡ some id
Carries header_name id message = Unit

correlation_id_of-is_correlation_id :
    (incoming : Option String) (uuid : String)
    → is_correlation_id uuid ≡ true
    → is_correlation_id (correlation_id_of incoming uuid) ≡ true
unfolding correlation_id_of
correlation_id_of-is_correlation_id none uuid h = h
correlation_id_of-is_correlation_id (some incoming) uuid h =
    elim (Bool-cases (is_correlation_id incoming)) [ inl good ↦ rw good good | inr bad ↦ rw bad h ]

sent-Carries :
    (header_name id : String) (ms : List Message)
    → All (Carries header_name id) (map (send_with_correlation_id header_name id) ms)
unfolding send_with_correlation_id
sent-Carries header_name id [] = tt
sent-Carries header_name id (response_start status headers ∷ ms) =
    (get-put_self header_name id headers, sent-Carries header_name id ms)
sent-Carries header_name id (response_body more ∷ ms) = (tt, sent-Carries header_name id ms)
sent-Carries header_name id (other_message ∷ ms) = (tt, sent-Carries header_name id ms)

-- When a new id matches the pattern, every response that is started carries one id in the
-- header, which matches the pattern whatever came with the request, and which is the id that the
-- application was called with.
pub call-Carries :
    (header_name : String) (incoming : Option String) (uuid : String) (app : String → List Message)
    → is_correlation_id uuid ≡ true
    → (id : String) × (is_correlation_id id ≡ true)
      × (call header_name incoming uuid app
          ≡ map (send_with_correlation_id header_name id) (app id))
      × All (Carries header_name id) (call header_name incoming uuid app)
unfolding call
call-Carries header_name incoming uuid app h =
    let id = correlation_id_of incoming uuid in
    (
      id,
      correlation_id_of-is_correlation_id incoming uuid h,
      refl,
      sent-Carries header_name id (app id),
    )
