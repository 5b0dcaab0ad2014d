-- ===== src/Factory/Create/Mappers.antt =====
-- The installation of error mappers by `create_app`.
use fastapi_core.Prelude.{
  ℕ, nat_eq, true, false, ◌≡◌, refl, sym, ◌∙◌, ap, Option, get_or, List, [], ◌∷◌, ◌++◌, map,
  all_new, all_new-nil, contains, append-nil, append_assoc, arith,
}
use fastapi_core.Dict.{Dict, keys, has}
use fastapi_core.Dict.Laws.{has-contains, put-append, keys-append}
use fastapi_core.Result.{ok, is_ok, >>=-eq-ok}
use fastapi_core.Http.{ExceptionMappingTable}
use fastapi_core.Http.Handlers.{HttpApp, install_problem_handlers, register_error_mapper}
use fastapi_core.Factory.{ErrorMapperSpec, validate_error_mappers}
use fastapi_core.Factory.Names.{types_of, validate_error_mappers_iff}
use fastapi_core.Factory.Plan.{Environment}
use fastapi_core.Factory.Create.{new_http, register_mappers}

-- The handlers that the specs ask for, in their order.
abbrev pub handlers_of : List ErrorMapperSpec → Dict ℕ ℕ
handlers_of specs = map (λ s. (s.exception_type, get_or s.mapper 0)) specs

module _ (environment : Environment) where
  abbrev with_mapper : ℕ → ℕ → HttpApp → HttpApp
  with_mapper c mapper http = record http {
    error_mapper_types = http.error_mapper_types ++ c ∷ [];
    exception_handlers = http.exception_handlers ++ (c, mapper) ∷ [];
  }

  register_error_mapper-new :
      (c mapper : ℕ) (http : HttpApp)
      → keys http.exception_handlers ≡ http.error_mapper_types
      → contains c http.error_mapper_types ≡ false
      → register_error_mapper environment.classes c mapper http ≡ ok (with_mapper c mapper http)
  unfolding register_error_mapper
  register_error_mapper-new c mapper http same new =
      let absent : has c http.exception_handlers ≡ false =
        has-contains c http.exception_handlers ∙ rw same new in
      rw (new, put-append c mapper http.exception_handlers absent) refl

  register_mappers_lem :
      (specs : List ErrorMapperSpec) (http : HttpApp)
      → keys http.exception_handlers ≡ http.error_mapper_types
      → all_new http.error_mapper_types (types_of specs) ≡ true
      → (http' : HttpApp) × (register_mappers environment specs http ≡ ok http')
        × (http'.exception_handlers ≡ http.exception_handlers ++ handlers_of specs)
  unfolding register_mappers
  register_mappers_lem [] http same new = (http, refl, sym (append-nil http.exception_handlers))
  register_mappers_lem (s ∷ specs) http same new =
      let c = s.exception_type in
      let mapper = get_or s.mapper 0 in
      let next = with_mapper c mapper http in
      let fresh : contains c http.error_mapper_types ≡ false = ground arith in
      let (http', e, installed) =
        register_mappers_lem specs next
          (keys-append http.exception_handlers ((c, mapper) ∷ []) ∙ ap (λ cs. cs ++ c ∷ []) same)
          (ground arith) in
      (
        http',
        rw (register_error_mapper-new c mapper http same fresh) e,
        installed ∙ append_assoc http.exception_handlers ((c, mapper) ∷ []) (handlers_of specs),
      )

  pub register_mappers-installs :
      (specs : List ErrorMapperSpec) (renderer : Option ℕ) (table : Option ExceptionMappingTable)
      → is_ok (validate_error_mappers environment.classes specs) ≡ true
      → (http : HttpApp) × (register_mappers environment specs
            (install_problem_handlers renderer table (new_http environment))
          ≡ ok http)
        × (http.exception_handlers ≡ handlers_of specs)
  unfolding install_problem_handlers
  register_mappers-installs specs renderer table valid = register_mappers_lem specs _ refl (
      ground
        (arith, validate_error_mappers_iff environment.classes specs, all_new-nil (types_of specs)))

  register_error_mapper_types :
      (c mapper : ℕ) (http http' : HttpApp)
      → register_error_mapper environment.classes c mapper http ≡ ok http'
      → http'.error_mapper_types ≡ http.error_mapper_types ++ c ∷ []
  unfolding register_error_mapper
  register_error_mapper_types c mapper http http' h = ground arith

  -- The types that have a mapper, after the registration of some.
  pub register_mappers_types :
      (specs : List ErrorMapperSpec) (http http' : HttpApp)
      → register_mappers environment specs http ≡ ok http'
      → http'.error_mapper_types ≡ http.error_mapper_types ++ types_of specs
  unfolding register_mappers
  register_mappers_types [] http http' h =
      ap (λ (q : HttpApp). q.error_mapper_types) {x = http'} {y = http} (ground arith)
      ∙ sym (append-nil http.error_mapper_types)
  register_mappers_types (s ∷ specs) http http' h =
      let (next, registered, rest) =
        >>=-eq-ok (register_error_mapper environment.classes s.exception_type _ http)
          (register_mappers environment specs) h in
      register_mappers_types specs next http' rest
      ∙ ap (λ ts. ts ++ types_of specs)
          (register_error_mapper_types s.exception_type _ http next registered)
      ∙ append_assoc http.error_mapper_types (s.exception_type ∷ []) (types_of specs)
