-- ===== src/Matching/Changeset/Records.antt =====
-- src/matching/changeset.py: the change records, and the functions that make one.
pub mod Classify
use gis_vector_map_changes.Prelude.{
  ℕ, String, List, [], ◌∷◌, Bool, true, false, Option, none, some, any, sort, text_le, str_append,
  if◌then◌else◌,
}
use gis_vector_map_changes.Shapely.{Shapely}
use gis_vector_map_changes.Matching.Config.{t_unchanged_iou, aoi_boundary_distance_m}
use gis_vector_map_changes.Matching.Features.{LoadedFeature}
use gis_vector_map_changes.Matching.Metrics.{MatchMetrics}
use gis_vector_map_changes.Matching.Candidates.{is_empty}

pub data Classification : Type 0 where
  unchanged modified_geometry modified_attributes modified_geometry_and_attributes : Classification
  added removed ambiguous : Classification

unfoldable pub classification_text : Classification → String
classification_text unchanged = "unchanged"
classification_text modified_geometry = "modified_geometry"
classification_text modified_attributes = "modified_attributes"
classification_text modified_geometry_and_attributes = "modified_geometry_and_attributes"
classification_text added = "added"
classification_text removed = "removed"
classification_text ambiguous = "ambiguous"

abbrev pub classifications : List Classification
classifications =
    unchanged ∷ modified_geometry ∷ modified_attributes ∷ modified_geometry_and_attributes ∷ added
    ∷ removed ∷ ambiguous ∷ []

module _ (lib : Shapely) where
  open lib use {Float, Geometry, distance, float_lt}

  -- One item of a dict `pair_metrics`.
  pub record PairMetrics : Type 0 where
    pub osm_id_a : String
    pub osm_id_b : String
    pub metrics : MatchMetrics lib

  pub record ChangeRecord : Type 0 where
    pub classification : Classification
    pub match_method : Option String
    pub match_score : Option Float
    pub osm_ids_a : List String
    pub osm_ids_b : List String
    pub classification_reason : String
    pub pair_metrics : List PairMetrics
    pub involves_repaired_geometry : Bool
    pub touches_aoi_boundary : Bool

  unfoldable pub involves_repaired : List (LoadedFeature lib) → Bool
  involves_repaired feats = any (λ f. f.repaired) feats

  unfoldable pub touches_boundary : List (LoadedFeature lib) → Option Geometry → Bool
  touches_boundary feats none = false
  touches_boundary feats (some aoi_boundary) =
      any (λ f. float_lt (distance f.geometry aoi_boundary) (aoi_boundary_distance_m lib)) feats

  -- the ladder at the head of `_classify_matched`
  unfoldable pub classification_of : MatchMetrics lib → Classification
  classification_of metrics =
      let geometry_changed = float_lt metrics.iou (t_unchanged_iou lib) in
      let attrs_same = is_empty metrics.attrs_changed in
      if geometry_changed
      then (if attrs_same then modified_geometry else modified_geometry_and_attributes)
      else (if attrs_same then unchanged else modified_attributes)

  unfoldable pub classify_matched :
      String
      → String
      → String
      → MatchMetrics lib
      → LoadedFeature lib
      → LoadedFeature lib
      → Option Geometry
      → ChangeRecord
  unfolding classification_of involves_repaired touches_boundary classification_text
  classify_matched osm_id_a osm_id_b match_method metrics feature_a feature_b aoi_boundary =
      let classification = classification_of metrics in
      let feats = feature_a ∷ feature_b ∷ [] in
      record {
        classification = classification;
        match_method = some match_method;
        match_score = some metrics.iou;
        osm_ids_a = osm_id_a ∷ [];
        osm_ids_b = osm_id_b ∷ [];
        classification_reason =
            str_append match_method (str_append "_match_" (classification_text classification));
        pair_metrics = record { osm_id_a = osm_id_a; osm_id_b = osm_id_b; metrics = metrics } ∷ [];
        involves_repaired_geometry = involves_repaired feats;
        touches_aoi_boundary = touches_boundary feats aoi_boundary;
      }

  unfoldable pub ambiguous_record :
      List String
      → List String
      → List PairMetrics
      → String
      → List (LoadedFeature lib)
      → Option Geometry
      → ChangeRecord
  unfolding involves_repaired touches_boundary
  ambiguous_record a_ids b_ids pair_metrics reason feats aoi_boundary = record {
    classification = ambiguous;
    match_method = none;
    match_score = none;
    osm_ids_a = sort text_le a_ids;
    osm_ids_b = sort text_le b_ids;
    classification_reason = reason;
    pair_metrics = pair_metrics;
    involves_repaired_geometry = involves_repaired feats;
    touches_aoi_boundary = touches_boundary feats aoi_boundary;
  }

  -- `classification == "removed"`
  abbrev pub is_removed : Classification → Bool
  is_removed removed = true
  is_removed _ = false

  -- `classification == "added"`
  abbrev pub is_added : Classification → Bool
  is_added added = true
  is_added _ = false

  unfoldable pub added_or_removed :
      Classification → LoadedFeature lib → Option Geometry → ChangeRecord
  unfolding involves_repaired touches_boundary
  added_or_removed classification feature aoi_boundary = record {
    classification = classification;
    match_method = none;
    match_score = none;
    osm_ids_a = if is_removed classification then feature.osm_id ∷ [] else [];
    osm_ids_b = if is_added classification then feature.osm_id ∷ [] else [];
    classification_reason = "no_spatial_counterpart";
    pair_metrics = [];
    involves_repaired_geometry = involves_repaired (feature ∷ []);
    touches_aoi_boundary = touches_boundary (feature ∷ []) aoi_boundary;
  }
