-- ===== src/Ingestion/Snapshot/Handover.antt =====
-- Matching loads what ingestion normalized.
use gis_vector_map_changes.Prelude.{
  ℕ, String, List, [], ◌∷◌, not, Option, none, some, ok, traverse, ◌≡◌, refl,
}
use gis_vector_map_changes.Json
use gis_vector_map_changes.Json.{Json, Fields, str, arr, nil, obj, end}
use gis_vector_map_changes.Shapely.{Shapely, MappingLaw}
use gis_vector_map_changes.Matching.Crs.{to_metric}
use gis_vector_map_changes.Matching.Features.{load_feature, load_tag, is_set}
use gis_vector_map_changes.Ingestion.BuildingCategory.{categorize}
use gis_vector_map_changes.Ingestion.Validate.{ValidationResult, validate_and_repair}
use gis_vector_map_changes.Ingestion.Snapshot.{or_null, normal_properties, normal_feature}
use gis_vector_map_changes.Ingestion.Snapshot.Tallied.{Normalized, method_told}

module _ (lib : Shapely) (lower : String → String) (strftime : ℕ → String) where
  open lib use {Float, Geometry, shape, mapping, is_valid}

  -- the tags that matching reads from a normalized feature
  abbrev pub normal_attrs : Option String → Option String → List (String × Option String)
  normal_attrs building_tag name =
      ("building", building_tag)
      ∷ ("category", some (categorize lower building_tag))
      ∷ ("name", name)
      ∷ []

  null_read :
      (name : Option (Json Float))
      → Json.as_optional_str (some (or_null name)) ≡ Json.as_optional_str name
  unfolding or_null Json.as_optional_str
  null_read none = refl
  null_read (some j) = refl

  str_read : (s : String) → Json.as_optional_str {F = Float} (some (str s)) ≡ ok (some s)
  unfolding Json.as_optional_str
  str_read s = refl

  text_read :
      (t : Option String) → Json.as_optional_str (some (Json.optional_str {F = Float} t)) ≡ ok t
  unfolding Json.as_optional_str Json.optional_str
  text_read none = refl
  text_read (some s) = refl

  -- Where shapely reads what it writes and the name of a raw feature is a text or missing, matching
  -- loads the feature that ingestion made of it: with the validated geometry in metric coordinates,
  -- with its tags, and marked as repaired exactly if the raw geometry was invalid.
  pub normalize_feature-load_feature :
      MappingLaw lib
      → (raw f : Json Float) (r : ValidationResult lib) (n : Normalized lib lower strftime raw f r)
        (name : Option String)
      → Json.as_optional_str n.name ≡ ok name
      → load_feature lib f
        ≡ ok (record {
          osm_id = n.osm_id;
          geometry = to_metric lib (validate_and_repair lib n.source_geometry).geometry;
          attrs = normal_attrs n.building_tag name;
          repaired = not (is_valid n.source_geometry);
        })
  unfolding load_feature load_tag traverse normal_feature normal_properties Json.index Json.find
      Json.obj_of Json.as_str Json.get
  normalize_feature-load_feature law raw f r n name is_name =
      let told : is_set lib (some (Json.optional_str {F = Float} r.repair_method))
          ≡ not (is_valid n.source_geometry) =
        rw n.validated (method_told lib lower strftime n.source_geometry) in
      rw n.built (
        rw (law.shape-mapping, text_read n.building_tag, null_read n.name, is_name, told)
          (rw (n.validated, str_read (categorize lower n.building_tag)) refl))
