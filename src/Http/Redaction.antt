-- ===== src/Http/Redaction.antt =====
-- What a renderer with explicit safe fields can show of an error.
use fastapi_core.Prelude.{
  String, Bool, true, false, ◌≡◌, refl, Option, none, some, List, contains, string_eq, arith,
  if◌then◌else◌,
}
use fastapi_core.Http.{ErrorMapping}
use fastapi_core.Http.Render.{
  Python, Request, RendererOptions, fields, explicit_safe_fields, either, safe_mapping, renderer,
}

-- A value that is shown under a condition.
abbrev pub shown {ℓ} : {A : Type ℓ} → Bool → A → Option A
shown true x = some x
shown false x = none

-- Two errors that differ at most in the fields that are not safe.
pub record Alike (fields : List String) (m m' : ErrorMapping) : Type 0 where
  pub status_code : m.status_code ≡ m'.status_code
  pub headers : m.headers ≡ m'.headers
  pub detail : let b = either "detail" "message" fields in shown b m.detail ≡ shown b m'.detail
  pub title : let b = contains "title" fields in shown b m.title ≡ shown b m'.title
  pub type_uri : let b = contains "type" fields in shown b m.type_uri ≡ shown b m'.type_uri
  pub code : let b = contains "code" fields in shown b m.code ≡ shown b m'.code
  pub extensions :
      let b = either "extensions" "metadata" fields in shown b m.extensions ≡ shown b m'.extensions

pick {ℓ} :
    {A : Type ℓ} (b : Bool) (x y d : A)
    → shown b x ≡ shown b y
    → (if b then x else d) ≡ (if b then y else d)
pick true x y d h = ground arith
pick false x y d h = refl

safe_mapping-Alike :
    (python : Python) (options : RendererOptions) (m m' : ErrorMapping)
    → explicit_safe_fields python options ≡ true
    → Alike (fields python options) m m'
    → safe_mapping python options m ≡ safe_mapping python options m'
unfolding safe_mapping
safe_mapping-Alike python options m m' explicit alike =
    let fs = fields python options in
    rw
      (
        explicit,
        alike.status_code,
        alike.headers,
        pick (either "detail" "message" fs) m.detail m'.detail "Request failed" alike.detail,
        pick (contains "title" fs) m.title m'.title none alike.title,
        pick (contains "type" fs) m.type_uri m'.type_uri "about:blank" alike.type_uri,
        pick (contains "code" fs) m.code m'.code none alike.code,
        pick (either "extensions" "metadata" fs) m.extensions m'.extensions none alike.extensions,
      )
      refl

pub renderer-Alike :
    (python : Python) (options : RendererOptions) (request : Request) (m m' : ErrorMapping)
    → explicit_safe_fields python options ≡ true
    → Alike (fields python options) m m'
    → renderer python options request m ≡ renderer python options request m'
unfolding renderer
renderer-Alike python options request m m' explicit alike =
    rw (safe_mapping-Alike python options m m' explicit alike) refl
