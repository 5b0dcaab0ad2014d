-- ===== src/Http/Render.antt =====
-- `_problem_response` and `create_error_renderer` of fastapi_core/http.py, with the fields of
-- schemas/error.py.
use fastapi_core.Prelude.{
  ℕ, String, Bool, true, false, not, ◌||◌, Option, none, some, is_some, get_or, List, [], ◌∷◌,
  contains, string_eq, nat_eq, or_else, if◌then◌else◌,
}
use fastapi_core.Text.{◌<>◌, truthy_text}
use fastapi_core.Dict.{Dict, get, put, set_default}
use fastapi_core.Http.{ErrorMapping}

-- A member of a JSON object. A value that the program only hands on is a number.
pub data Member : Type 0 where
  text : String → Member
  number : ℕ → Member
  given : ℕ → Member
  metadata : Dict String ℕ → Member

pub data Content : Type 0 where
  flat : Dict String Member → Content
  -- `{"error": …}`
  enveloped : Dict String Member → Content

pub record Response : Type 0 where
  pub status_code : ℕ
  pub content : Content
  pub headers : Dict String String
  pub media_type : String

-- What is read of a request: its method and path, the template of its route, and
-- `request.state.correlation_id`.
pub record Request : Type 0 where
  pub method : String
  pub path : String
  pub route : Option String
  pub correlation_id : Option String

-- From Python's library: the phrase of a status, its decimal digits, and what `uuid4().hex` gives.
pub record Python : Type 0 where
  pub phrase : ℕ → Option String
  pub digits : ℕ → String
  pub uuid : Request → String

-- The extensions, if there are any.
abbrev pub some_extensions : Option (Dict String ℕ) → Option (Dict String ℕ)
some_extensions none = none
some_extensions (some []) = none
some_extensions (some (x ∷ xs)) = some (x ∷ xs)

-- `content.update(extensions)`
abbrev pub update_given : Dict String Member → Dict String ℕ → Dict String Member
update_given d [] = d
update_given d ((k, v) ∷ e) = update_given (put k (given v) d) e

abbrev add_extensions : Bool → Option (Dict String ℕ) → Dict String Member → Dict String Member
add_extensions false e d = d
add_extensions true e d = elim (some_extensions e) [ none ↦ d | some e' ↦ update_given d e' ]

abbrev add_code : Bool → Option String → Dict String Member → Dict String Member
add_code true (some c) d = put "code" (text c) d
add_code b c d = d

module _ (python : Python) where
  unfoldable pub status_title : ℕ → String
  status_title status = get_or (python.phrase status) "HTTP Error"

  unfoldable pub default_correlation_id : Request → String
  default_correlation_id request = get_or request.correlation_id (python.uuid request)

  -- `problem.model_dump()`
  abbrev pub problem_members : Request → ErrorMapping → String → Dict String Member
  problem_members request mapping correlation_id =
      ("type", text mapping.type_uri)
      ∷ ("title", text (get_or (truthy_text mapping.title) (status_title mapping.status_code)))
      ∷ ("status", number mapping.status_code)
      ∷ ("detail", text mapping.detail)
      ∷ ("instance", text request.path)
      ∷ ("correlation_id", text correlation_id)
      ∷ []

  unfoldable pub problem_response : Request → ErrorMapping → Option String → Bool → Bool → Response
  unfolding status_title default_correlation_id
  problem_response request mapping correlation_id include_code include_extensions =
      let id = get_or correlation_id (default_correlation_id request) in
      record {
        status_code = mapping.status_code;
        content = flat (
            add_extensions include_extensions mapping.extensions
              (add_code include_code mapping.code (problem_members request mapping id)));
        headers = set_default "X-Correlation-ID" id (get_or mapping.headers []);
        media_type = "application/problem+json";
      }

  unfoldable pub problem_renderer : Request → ErrorMapping → Response
  unfolding problem_response
  problem_renderer request mapping = problem_response request mapping none true true

-- The arguments of `create_error_renderer`.
pub record RendererOptions : Type 0 where
  pub correlation_id_extractor : Option (Request → String)
  pub envelope_builder : Option (Request → ErrorMapping → String → Content)
  pub fallback_codes : Dict ℕ String
  pub safe_fields : Option (List String)
  pub problem_details : Bool

abbrev default_fields : List String
default_fields = "code" ∷ "message" ∷ "correlation_id" ∷ "metadata" ∷ []

-- `safe_fields or {…}`: an empty set counts as none.
unfoldable pub fields_of : Option (List String) → List String
fields_of none = default_fields
fields_of (some []) = default_fields
fields_of (some (f ∷ fs)) = f ∷ fs

abbrev pub either : String → String → List String → Bool
either a b fields = contains a fields || contains b fields

abbrev member_if : Bool → String → Member → Dict String Member → Dict String Member
member_if true k v d = put k v d
member_if false k v d = d

abbrev metadata_if : Bool → Option (Dict String ℕ) → Dict String Member → Dict String Member
metadata_if false e d = d
metadata_if true e d = elim (some_extensions e) [
  | none ↦ d
  | some e' ↦ put "metadata" (metadata e') d
]

module _ (python : Python) (options : RendererOptions) where
  abbrev pub fields : List String
  fields = fields_of options.safe_fields

  abbrev pub explicit_safe_fields : Bool
  explicit_safe_fields = is_some options.safe_fields

  -- `mapping.code or codes.get(status, f"http_{status}")`
  abbrev code_text : ErrorMapping → String
  code_text m =
      get_or (truthy_text m.code)
        (get_or (get m.status_code options.fallback_codes) ("http_" <> python.digits m.status_code))

  unfoldable pub default_envelope : Request → ErrorMapping → String → Content
  default_envelope request m correlation_id = enveloped (
      metadata_if (contains "metadata" fields) m.extensions (
        member_if (contains "correlation_id" fields) "correlation_id" (text correlation_id) (
          member_if (contains "message" fields) "message" (text m.detail)
            (member_if (contains "code" fields) "code" (text (code_text m)) []))))

  unfoldable pub safe_mapping : ErrorMapping → ErrorMapping
  safe_mapping m = if not explicit_safe_fields then m else record m {
    detail = if either "detail" "message" fields then m.detail else "Request failed";
    title = if contains "title" fields then m.title else none;
    type_uri = if contains "type" fields then m.type_uri else "about:blank";
    code = if contains "code" fields then m.code else none;
    extensions = if either "extensions" "metadata" fields then m.extensions else none;
  }

  abbrev with_code : ErrorMapping → ErrorMapping
  with_code m = record m { code = or_else m.code (get m.status_code options.fallback_codes) }

  -- The renderer of a mapping that is selected, with its code.
  unfoldable pub render_selected : Request → ErrorMapping → Response
  unfolding problem_response default_envelope
  render_selected request m =
      let id = (get_or options.correlation_id_extractor (default_correlation_id python)) request in
      if options.problem_details
      then problem_response python request m (some id)
          (not explicit_safe_fields || contains "code" fields)
          (not explicit_safe_fields || either "extensions" "metadata" fields)
      else record {
        status_code = m.status_code;
        content = (get_or options.envelope_builder default_envelope) request m id;
        headers = set_default "X-Correlation-ID" id (get_or m.headers []);
        media_type = "application/json";
      }

  unfoldable pub renderer : Request → ErrorMapping → Response
  unfolding render_selected
  renderer request mapping = render_selected request (with_code (safe_mapping mapping))
