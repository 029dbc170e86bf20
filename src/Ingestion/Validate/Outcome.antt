-- ===== src/Ingestion/Validate/Outcome.antt =====
-- What `validate_and_repair` records, and the type of the geometry that it hands back.
use gis_vector_map_changes.Prelude.{
  List, [], ◌∷◌, Bool, true, false, not, none, keep, arith, ◌≡◌, ◌↔◌, inl, inr, ◌==◌, if◌then◌else◌,
  Bool-cases, All,
}
use gis_vector_map_changes.Shapely.{Shapely}
use gis_vector_map_changes.Matching.Candidates.{is_empty}
use gis_vector_map_changes.Ingestion.Validate.{ValidationResult, is_polygonal, validate_and_repair}

module _ (lib : Shapely) where
  open lib use {Geometry, is_valid, geom_type, geoms, make_valid, unary_union}

  -- shapely's documentation of `unary_union`: the union of polygons is a Polygon or a MultiPolygon.
  pub record UnionLaw : Type 0 where
    pub union_polygonal :
        (gs : List Geometry)
        → is_empty gs ≡ false
        → All (λ g. is_polygonal lib g ≡ true) gs
        → is_polygonal lib (unary_union gs) ≡ true

  -- The geometry is polygonal, or a collection with a polygonal part.
  abbrev pub has_polygonal : Geometry → Bool
  has_polygonal g =
      if is_polygonal lib g
      then true
      else if geom_type g == "GeometryCollection"
      then not (is_empty (keep (is_polygonal lib) (geoms g)))
      else false

  All-keep : (p : Geometry → Bool) (gs : List Geometry) → All (λ g. p g ≡ true) (keep p gs)
  All-keep p [] = tt
  All-keep p (g ∷ gs) = elim (Bool-cases (p g)) [
    | inl good ↦ rw good (good, All-keep p gs)
    | inr bad ↦ rw bad (All-keep p gs)
  ]

  -- What `validate_and_repair` records of a geometry.
  pub record Honest (g : Geometry) (r : ValidationResult lib) : Type 0 where
    -- the original is kept, and its validity is told
    pub original : r.original_geometry ≡ g
    pub validity : r.original_valid ≡ is_valid g
    -- a repair method is named exactly for an invalid geometry, and a valid one is not touched
    pub named : (r.repair_method ≡ none) ↔ (is_valid g ≡ true)
    pub untouched : is_valid g ≡ true → r.geometry ≡ g
    -- `repaired_valid` is the validity of the geometry handed back
    pub outcome : r.repaired_valid ≡ is_valid r.geometry

  -- A repair is never silent: `validate_and_repair` keeps the original geometry, tells its validity,
  -- names a repair method exactly where it was invalid, and tells the validity of the result.
  pub validate_and_repair-Honest : (g : Geometry) → Honest g (validate_and_repair lib g)
  unfolding validate_and_repair
  validate_and_repair-Honest g = ground arith

  -- Where a union of polygons is polygonal, an invalid geometry whose repair has any polygonal content
  -- becomes a Polygon or a MultiPolygon.
  pub repair-is_polygonal :
      UnionLaw
      → (g : Geometry) → is_valid g ≡ false
      → has_polygonal (make_valid g) ≡ true
      → is_polygonal lib (validate_and_repair lib g).geometry ≡ true
  unfolding validate_and_repair
  repair-is_polygonal law g invalid content =
      let parts = keep (is_polygonal lib) (geoms (make_valid g)) in
      let all = All-keep (is_polygonal lib) (geoms (make_valid g)) in
      elim (Bool-cases (is_empty parts)) [
        | inl empty ↦ ground arith
        | inr some' ↦ ground (arith, law.union_polygonal parts some' all)
      ]
