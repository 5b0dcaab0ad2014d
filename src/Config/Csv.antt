-- ===== src/Config/Csv.antt =====
-- Lists written as text: what the parsers give, and that they read back what was written.
use fastapi_core.Prelude.{
  String, string_eq, true, false, not, ◌≡◌, refl, ap, List, [], ◌∷◌, map, filter, All, All-map,
  Bool-cases, inl, inr, is_empty,
}
use fastapi_core.Text.{is_nil, strip, split, is_free, is_blank, join}
use fastapi_core.Text.Split.{strip_idem, is_free-strip, split-is_free, split-join, is_free-join}
use fastapi_core.Config.{parse_csv_env, parse_groups}

-- A name as the parsers give it: not empty, stripped, and free of commas.
abbrev pub IsName : String → Type 0
IsName w = (is_nil w ≡ false) × (strip w ≡ w) × (is_free b',' w ≡ true)

strip-IsName : (w : String) → is_free b',' w ≡ true → is_blank w ≡ false → IsName (strip w)
unfolding is_blank
strip-IsName w free solid = (solid, strip_idem w, is_free-strip b',' w free)

cells-IsName :
    (ws : List String)
    → All (λ w. is_free b',' w ≡ true) ws
    → All IsName (map strip (filter (λ w. not (is_blank w)) ws))
cells-IsName [] h = tt
cells-IsName (w ∷ ws) (free, later) = elim (Bool-cases (is_blank w)) [
  | inl blank ↦ rw blank (cells-IsName ws later)
  | inr solid ↦ rw solid (strip-IsName w free solid, cells-IsName ws later)
]

-- Whatever the text, every name that is read from it is not empty, has no white space at its ends
-- and no comma.
pub parse_csv_env-IsName : (raw : String) → All IsName (parse_csv_env raw)
unfolding parse_csv_env
parse_csv_env-IsName raw = cells-IsName (split b',' raw) (split-is_free b',' raw)

cells_self : (ws : List String) → All IsName ws → map strip (filter (λ w. not (is_blank w)) ws) ≡ ws
unfolding is_blank
cells_self [] h = refl
cells_self (w ∷ ws) ((solid, stripped, free), later) =
    let kept : is_blank w ≡ false = rw stripped solid in
    rw (kept, stripped) (ap (λ vs. w ∷ vs) (cells_self ws later))

-- Names that are not empty, stripped and free of commas, joined by commas, are read back.
pub parse_csv_env-join : (ws : List String) → All IsName ws → parse_csv_env (join "," ws) ≡ ws
unfolding parse_csv_env
parse_csv_env-join [] h = unfold is_blank split join in refl
parse_csv_env-join (w ∷ ws) h =
    rw (split-join b',' "," w ws refl (All-map (λ v g. g.2) (w ∷ ws) h)) (cells_self (w ∷ ws) h)

-- A group of alternatives: some names, none with a semicolon.
abbrev pub IsGroup : List String → Type 0
IsGroup g = (is_empty g ≡ false) × All IsName g × All (λ w. is_free b';' w ≡ true) g

groups_self :
    (gs : List (List String))
    → All IsGroup gs
    → filter (λ g. not (is_empty g)) (map parse_csv_env (map (join ",") gs)) ≡ gs
groups_self [] h = refl
groups_self (g ∷ gs) ((some_names, named, free), later) =
    rw (parse_csv_env-join g named, some_names) (ap (λ x. g ∷ x) (groups_self gs later))

groups-is_free :
    (gs : List (List String))
    → All IsGroup gs
    → All (λ w. is_free b';' w ≡ true) (map (join ",") gs)
groups-is_free [] h = tt
groups-is_free (g ∷ gs) (h, later) =
    (is_free-join b';' "," g (unfold is_free in refl) h.2, groups-is_free gs later)

-- Groups that are not empty, of such names without semicolons, are read back when they are joined
-- by semicolons and their names by commas.
pub parse_groups-join :
    (gs : List (List String)) → All IsGroup gs → parse_groups (join ";" (map (join ",") gs)) ≡ gs
unfolding parse_groups
parse_groups-join [] h = unfold parse_csv_env is_blank split join in refl
parse_groups-join (g ∷ gs) h =
    rw (split-join b';' ";" (join "," g) (map (join ",") gs) refl (groups-is_free (g ∷ gs) h))
      (groups_self (g ∷ gs) h)
