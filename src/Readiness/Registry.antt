-- ===== src/Readiness/Registry.antt =====
-- What the registry promises: its invariant, registering and unregistering, and finding a spec.
use fastapi_core.Prelude.{
  distinct-concat, String, string_eq, true, false, ◌≡◌, refl, ◌↔◌, [], ◌∷◌, ◌++◌, none, some, All,
  All-append, distinct, arith,
}
use fastapi_core.Text.{is_blank, is_free, ◌<>◌}
use fastapi_core.Text.Laws.{before_dot, <>_assoc}
use fastapi_core.Dict.{keys, get, has}
use fastapi_core.Dict.Laws.{put-append, has-contains, keys-append, remove-append_self}
use fastapi_core.Result.{ok, err, key_error}
use fastapi_core.Store.{ReadinessCheckSpec, ReadinessRegistry}
use fastapi_core.Readiness.{is_bad_timeout, register, unregister, resolve_spec}

abbrev pub IsEntry : String × ReadinessCheckSpec → Type 0
IsEntry (k, spec) =
    (spec.name ≡ k) × (is_blank k ≡ false) × (is_bad_timeout spec.timeout_seconds ≡ false)

-- Every spec stands once, under its own name, which is not blank, and its timeout is positive.
pub record IsValid (r : ReadinessRegistry) : Type 0 where
  pub unique : distinct (keys r.specs) ≡ true
  pub entries : All IsEntry r.specs

abbrev pub extended : ReadinessCheckSpec → ReadinessRegistry → ReadinessRegistry
extended spec r = record r { specs = r.specs ++ (spec.name, spec) ∷ [] }

abbrev pub Registrable : ReadinessCheckSpec → ReadinessRegistry → Type 0
Registrable spec r =
    (is_blank spec.name ≡ false)
    × (has spec.name r.specs ≡ false)
    × (is_bad_timeout spec.timeout_seconds ≡ false)

register-eq-ok :
    (spec : ReadinessCheckSpec) (r r' : ReadinessRegistry)
    → register spec r ≡ ok r'
    → Registrable spec r × (r' ≡ extended spec r)
unfolding register
register-eq-ok spec r r' h = ground (arith, put-append spec.name spec r.specs)

-- A spec is accepted exactly if its name is not blank and new and its timeout, if it has one, is
-- positive; the registry then holds it behind the specs that it held before.
pub register_iff :
    (spec : ReadinessCheckSpec) (r r' : ReadinessRegistry)
    → (register spec r ≡ ok r') ↔ (Registrable spec r × (r' ≡ extended spec r))
unfolding register
register_iff spec r r' =
    (register-eq-ok spec r r', λ h. ground (arith, put-append spec.name spec r.specs))

-- A registration that is accepted keeps a valid registry valid.
pub register-IsValid :
    (spec : ReadinessCheckSpec) (r r' : ReadinessRegistry)
    → IsValid r
    → register spec r ≡ ok r'
    → IsValid r'
register-IsValid spec r r' v h =
    let ((named, fresh, timely), e) = register-eq-ok spec r r' h in
    rw e (record {
      unique =
          rw
            (keys-append r.specs ((spec.name, spec) ∷ []), distinct-concat (keys r.specs) spec.name)
            (ground (arith, v.unique, has-contains spec.name r.specs));
      entries = All-append IsEntry r.specs _ v.entries ((refl, named, timely), tt);
    })

-- Unregistering what was registered last gives the registry back.
pub unregister-register :
    (spec : ReadinessCheckSpec) (r r' : ReadinessRegistry)
    → register spec r ≡ ok r'
    → unregister spec.name r' ≡ r
unfolding unregister
unregister-register spec r r' h =
    let ((named, fresh, timely), e) = register-eq-ok spec r r' h in
    rw e (ground (arith, remove-append_self spec.name spec r.specs fresh))

-- A nested name resolves to its parent's spec, if the parent's name has no dot and the whole name
-- is not registered itself.
pub resolve_spec-child :
    (parent child : String) (spec : ReadinessCheckSpec) (r : ReadinessRegistry)
    → is_free b'.' parent ≡ true
    → get (parent <> "." <> child) r.specs ≡ none
    → get parent r.specs ≡ some spec
    → resolve_spec (parent <> "." <> child) r ≡ ok spec
unfolding resolve_spec
resolve_spec-child parent child spec r free absent found =
    ground (arith, before_dot parent child free)

pub resolve_spec-dotted :
    (first rest child : String) (r : ReadinessRegistry)
    → is_free b'.' first ≡ true
    → get ((first <> "." <> rest) <> "." <> child) r.specs ≡ none
    → get first r.specs ≡ none
    → resolve_spec ((first <> "." <> rest) <> "." <> child) r ≡ err (key_error first)
unfolding resolve_spec
resolve_spec-dotted first rest child r free absent missing = ground (
  arith,
  <>_assoc first ("." <> rest) ("." <> child),
  <>_assoc "." rest ("." <> child),
  before_dot first (rest <> "." <> child) free,
)
