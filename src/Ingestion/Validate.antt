-- ===== src/Ingestion/Validate.antt =====
-- src/ingestion/validate.py
pub mod Outcome
use gis_vector_map_changes.Prelude.{
  String, List, [], ◌∷◌, Bool, true, false, not, Option, none, some, keep, contains, ◌==◌,
  if◌then◌else◌,
}
use gis_vector_map_changes.Shapely.{Shapely}
use gis_vector_map_changes.Matching.Candidates.{is_empty}

abbrev pub repair_method_make_valid : String
repair_method_make_valid = "make_valid"

abbrev pub repair_method_make_valid_extract : String
repair_method_make_valid_extract = "make_valid+extract_polygons"

abbrev pub polygonal_types : List String
polygonal_types = "Polygon" ∷ "MultiPolygon" ∷ []

module _ (lib : Shapely) where
  open lib use {Geometry, is_valid, geom_type, geoms, make_valid, unary_union}

  pub record ValidationResult : Type 0 where
    pub geometry : Geometry
    pub original_geometry : Geometry
    pub original_valid : Bool
    pub repair_method : Option String
    pub repaired_valid : Bool

  -- `geometry.geom_type in POLYGONAL_TYPES`
  abbrev pub is_polygonal : Geometry → Bool
  is_polygonal g = contains polygonal_types (geom_type g)

  -- the list `parts`
  unfoldable pub polygonal_parts : Geometry → List Geometry
  polygonal_parts geometry = keep is_polygonal (geoms geometry)

  -- `_extract_polygonal`
  unfoldable pub extract_polygonal : Geometry → Option Geometry
  unfolding polygonal_parts
  extract_polygonal geometry =
      if is_polygonal geometry
      then some geometry
      else if geom_type geometry == "GeometryCollection"
      then (if is_empty (polygonal_parts geometry)
          then none
          else some (unary_union (polygonal_parts geometry)))
      else none

  -- the part of `validate_and_repair` after `make_valid`
  unfoldable pub repair_result : Geometry → Geometry → Option Geometry → ValidationResult
  repair_result geometry repaired none = record {
    geometry = repaired;
    original_geometry = geometry;
    original_valid = false;
    repair_method = some repair_method_make_valid;
    repaired_valid = is_valid repaired;
  }
  repair_result geometry repaired (some polygonal) = record {
    geometry = polygonal;
    original_geometry = geometry;
    original_valid = false;
    repair_method = some (
        if not (geom_type polygonal == geom_type repaired)
        then repair_method_make_valid_extract
        else repair_method_make_valid);
    repaired_valid = is_valid polygonal;
  }

  unfoldable pub validate_and_repair : Geometry → ValidationResult
  unfolding extract_polygonal repair_result
  validate_and_repair geometry =
      if is_valid geometry
      then record {
        geometry = geometry;
        original_geometry = geometry;
        original_valid = true;
        repair_method = none;
        repaired_valid = true;
      }
      else (let repaired = make_valid geometry in
          repair_result geometry repaired (extract_polygonal repaired))
