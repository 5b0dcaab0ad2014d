-- ===== src/Http/Table.antt =====
-- Which tables of exception mappings are accepted, and which mapping an exception gets.
use fastapi_core.Prelude.{
  ℕ, Bool, true, not, ◌&&◌, ◌≡◌, refl, sym, ◌∙◌, ap, ◌↔◌, Option, none, some, is_some, List, [],
  ◌∷◌, ◌++◌, all, distinct, contains, Bool-cases, inl, inr, arith, nat_eq, nat_beq_iff,
  append_assoc, append-nil,
}
use fastapi_core.Dict.{Dict, get, has, put, keys}
use fastapi_core.Dict.Laws.{put-append, get-put}
use fastapi_core.Result.{ok, is_ok, Result-cases}
use fastapi_core.Http.{
  ErrorMappingValue, ExceptionMappingTable, Classes, is_valid_value, is_valid_fallback,
  check_mappings, post_init, add_specs, from_specs, first_mapped, apply_value, resolve,
}

module _ (classes : Classes) where
  abbrev pub is_valid_spec : ℕ × ErrorMappingValue → Bool
  is_valid_spec s = classes.is_exception_type s.0 && is_valid_value s.1

  -- What is asked of a list of specs and a fallback.
  abbrev pub is_acceptable : List (ℕ × ErrorMappingValue) → Option ErrorMappingValue → Bool
  is_acceptable specs fallback =
      distinct (keys specs)
      && all is_valid_spec specs
      && is_valid_fallback fallback
      && not (is_some fallback && has classes.exception specs)

  check_mappings-is_ok :
      (d : Dict ℕ ErrorMappingValue) → is_ok (check_mappings classes d) ≡ all is_valid_spec d
  unfolding check_mappings
  check_mappings-is_ok [] = refl
  check_mappings-is_ok ((c, v) ∷ d) = ground (arith, check_mappings-is_ok d)

  post_init_lem :
      (t : ExceptionMappingTable)
      → is_ok (post_init classes t) ≡ (
          all is_valid_spec t.mappings
          && is_valid_fallback t.fallback
          && not (is_some t.fallback && has classes.exception t.mappings))
  unfolding post_init
  post_init_lem t = ground (arith, check_mappings-is_ok t.mappings)

  post_init-same : (t t' : ExceptionMappingTable) → post_init classes t ≡ ok t' → t' ≡ t
  unfolding post_init
  post_init-same t t' h = elim (Result-cases (check_mappings classes t.mappings)) [
    | inl (u, e) ↦ ground arith
    | inr (x, e) ↦ ground arith
  ]

  -- None of the specs is for a class that is there.
  abbrev are_new : List (ℕ × ErrorMappingValue) → Dict ℕ ErrorMappingValue → Bool
  are_new specs d = all (λ s. not (has s.0 d)) specs

  are_new-put :
      (c : ℕ) (v : ErrorMappingValue) (specs d : Dict ℕ ErrorMappingValue)
      → are_new specs (put c v d) ≡ (not (contains c (keys specs)) && are_new specs d)
  are_new-put c v [] d = refl
  are_new-put c v ((j, w) ∷ specs) d =
      ground (arith, are_new-put c v specs d, get-put c j v d, nat_beq_iff c j, nat_beq_iff j c)

  add_specs-is_ok :
      (specs d : Dict ℕ ErrorMappingValue)
      → is_ok (add_specs classes specs d) ≡ (distinct (keys specs) && are_new specs d)
  unfolding add_specs
  add_specs-is_ok [] d = refl
  add_specs-is_ok ((c, v) ∷ specs) d =
      ground (arith, add_specs-is_ok specs (put c v d), are_new-put c v specs d)

  add_specs-same :
      (specs d out : Dict ℕ ErrorMappingValue)
      → add_specs classes specs d ≡ ok out
      → out ≡ d ++ specs
  unfolding add_specs
  add_specs-same [] d out h = ground (arith, append-nil d)
  add_specs-same ((c, v) ∷ specs) d out h = elim (Bool-cases (has c d)) [
    | inl there ↦ ground arith
    | inr new ↦
        add_specs-same specs (put c v d) out (ground arith)
        ∙ rw (put-append c v d new) (append_assoc d ((c, v) ∷ []) specs)
  ]

  are_new-nil : (specs : Dict ℕ ErrorMappingValue) → are_new specs [] ≡ true
  unfolding get
  are_new-nil [] = refl
  are_new-nil (s ∷ specs) = are_new-nil specs

  abbrev pub table_of :
      List (ℕ × ErrorMappingValue) → Option ErrorMappingValue → ExceptionMappingTable
  table_of specs fallback = record { mappings = specs; fallback = fallback }

  from_specs_lem :
      (specs : List (ℕ × ErrorMappingValue)) (fallback : Option ErrorMappingValue)
      → (is_ok (from_specs classes specs fallback) ≡ is_acceptable specs fallback)
        × ((is_ok (from_specs classes specs fallback) ≡ true
            → from_specs classes specs fallback ≡ ok (table_of specs fallback)))
  unfolding from_specs
  from_specs_lem specs fallback = elim (Result-cases (add_specs classes specs [])) [
    | inr (e, raised) ↦ (ground (arith, add_specs-is_ok specs [], are_new-nil specs), ground arith)
    | inl (out, added) ↦
        let whole : add_specs classes specs [] ≡ ok specs =
          added ∙ ap ok (add_specs-same specs [] out added) in
        let t = table_of specs fallback in
        (
          rw whole (post_init_lem t ∙ ground (arith, add_specs-is_ok specs [], are_new-nil specs)),
          elim (Result-cases (post_init classes t)) [
            | inl (t', e) ↦ rw whole (λ h. e ∙ ap ok (post_init-same t t' e))
            | inr (e, raised) ↦ rw whole (ground arith)
          ],
        )
  ]

  -- A list of specs and a fallback are accepted exactly if the classes are all different and are
  -- exception types, the values are mappings or callables, and there is no fallback besides a
  -- mapping of Exception; the table then has the specs, in their order, and the fallback.
  pub from_specs_iff :
      (specs : List (ℕ × ErrorMappingValue)) (fallback : Option ErrorMappingValue)
      → (is_ok (from_specs classes specs fallback) ≡ is_acceptable specs fallback)
        × ((from_specs classes specs fallback ≡ ok (table_of specs fallback))
            ↔ (is_acceptable specs fallback ≡ true))
  from_specs_iff specs fallback =
      let (accepted, table) = from_specs_lem specs fallback in
      (accepted, ((λ e. sym accepted ∙ ap is_ok e), (λ good. table (accepted ∙ good))))

  -- No class before `c` is mapped.
  abbrev pub is_first : List ℕ → Dict ℕ ErrorMappingValue → Bool
  is_first before d = all (λ b. not (has b d)) before

  first_mapped-append :
      (before after : List ℕ) (c : ℕ) (v : ErrorMappingValue) (d : Dict ℕ ErrorMappingValue)
      → is_first before d ≡ true
      → get c d ≡ some v
      → first_mapped classes (before ++ c ∷ after) d ≡ some v
  unfolding first_mapped
  first_mapped-append [] after c v d h found = ground arith
  first_mapped-append (b ∷ before) after c v d h found =
      ground (arith, first_mapped-append before after c v d)

  first_mapped-none :
      (cs : List ℕ) (d : Dict ℕ ErrorMappingValue)
      → is_first cs d ≡ true
      → first_mapped classes cs d ≡ none
  unfolding first_mapped
  first_mapped-none [] d h = refl
  first_mapped-none (c ∷ cs) d h = ground (arith, first_mapped-none cs d)

  -- An exception gets the value of the first class of its order that the table maps, whatever the
  -- order of the table.
  pub resolve_first :
      (table : ExceptionMappingTable) (c : ℕ) (before after : List ℕ) (b : ℕ)
      (v : ErrorMappingValue)
      → classes.mro c ≡ before ++ b ∷ after
      → is_first before table.mappings ≡ true
      → get b table.mappings ≡ some v
      → resolve classes table c ≡ apply_value classes (some v) c
  unfolding resolve
  resolve_first table c before after b v order first found =
      rw (order, first_mapped-append before after b v table.mappings first found) refl

  -- An exception none of whose classes is mapped gets the fallback.
  pub resolve_fallback :
      (table : ExceptionMappingTable) (c : ℕ)
      → is_first (classes.mro c) table.mappings ≡ true
      → resolve classes table c ≡ apply_value classes table.fallback c
  unfolding resolve
  resolve_fallback table c first = rw (first_mapped-none (classes.mro c) table.mappings first) refl
