-- ===== src/Matching/Render.antt =====
-- src/matching/render.py
pub mod Total
use gis_vector_map_changes.Prelude.{
  String, List, [], ◌∷◌, ◌++◌, Bool, true, false, Option, none, some, Dict, index, Result, ok, err,
  traverse, ◌>>=◌, if◌then◌else◌,
}
use gis_vector_map_changes.Json
use gis_vector_map_changes.Json.{Json, null, bool, num, str, arr, obj}
use gis_vector_map_changes.Shapely.{Shapely}
use gis_vector_map_changes.Matching.Config.{algorithm_version}
use gis_vector_map_changes.Matching.Crs.{to_crs84}
use gis_vector_map_changes.Matching.Features.{LoadedFeature}
use gis_vector_map_changes.Matching.Metrics.{MatchMetrics}
use gis_vector_map_changes.Matching.Candidates.{is_empty}
use gis_vector_map_changes.Matching.Changeset.Records.{
  ChangeRecord, PairMetrics, classification_text,
}

module _ (lib : Shapely) where
  open lib use {Float, Geometry, mapping, unary_union}

  -- a list of texts
  unfoldable pub strs : List String → List (Json Float)
  strs [] = []
  strs (s ∷ ss) = str s ∷ strs ss

  unfoldable pub texts : List String → Json Float
  unfolding strs
  texts xs = arr (Json.arr_of (strs xs))

  -- `_metrics_dict`
  unfoldable pub metrics_dict : MatchMetrics lib → List (String × Json Float)
  unfolding texts
  metrics_dict metrics =
      ("iou", num metrics.iou)
      ∷ ("iou_centroid_aligned", num metrics.iou_centroid_aligned)
      ∷ ("centroid_shift_m", num metrics.centroid_shift_m)
      ∷ ("area_ratio", num metrics.area_ratio)
      ∷ ("hausdorff_m", num metrics.hausdorff_m)
      ∷ ("attrs_changed", texts metrics.attrs_changed)
      ∷ []

  -- `features[oid].geometry`
  unfoldable pub geometry_at : Dict (LoadedFeature lib) → String → Result Geometry
  geometry_at features oid = do feature ← index features oid; ok feature.geometry

  -- one geometry as it is, and several as their union
  unfoldable pub merged : List Geometry → Geometry
  merged (g ∷ []) = g
  merged geoms = unary_union geoms

  -- `_record_geometry`
  unfoldable pub record_geometry :
      ChangeRecord lib → Dict (LoadedFeature lib) → Dict (LoadedFeature lib) → Result Geometry
  unfolding geometry_at merged
  record_geometry r features_a features_b = do
    geoms_b ← traverse (geometry_at features_b) r.osm_ids_b
    geoms_a ← traverse (geometry_at features_a) (if is_empty r.osm_ids_b then r.osm_ids_a else [])
    ok (merged (geoms_b ++ geoms_a))

  -- the list `candidates` of a record
  unfoldable pub candidate_items : List (PairMetrics lib) → List (Json Float)
  unfolding metrics_dict
  candidate_items [] = []
  candidate_items (p ∷ ps) =
      obj (
        Json.obj_of
          (("osm_id_a", str p.osm_id_a) ∷ ("osm_id_b", str p.osm_id_b) ∷ metrics_dict p.metrics))
      ∷ candidate_items ps

  unfoldable pub optional_num : Option Float → Json Float
  optional_num none = null
  optional_num (some f) = num f

  -- the dict of one record
  unfoldable pub feature_of : Geometry → ChangeRecord lib → Json Float
  unfolding candidate_items optional_num texts
  feature_of geometry r =
      (obj (
        Json.obj_of (
          ("type", str "Feature")
          ∷ ("geometry", mapping (to_crs84 lib geometry))
          ∷ (
            "properties",
            obj (
                Json.obj_of (
                  ("classification", str (classification_text r.classification))
                  ∷ ("match_method", Json.optional_str r.match_method)
                  ∷ ("match_score", optional_num r.match_score)
                  ∷ ("classification_reason", str r.classification_reason)
                  ∷ ("osm_ids_a", texts r.osm_ids_a)
                  ∷ ("osm_ids_b", texts r.osm_ids_b)
                  ∷ ("involves_repaired_geometry", bool r.involves_repaired_geometry)
                  ∷ ("touches_aoi_boundary", bool r.touches_aoi_boundary)
                  ∷ ("algorithm_version", str algorithm_version)
                  ∷ ("candidates", arr (Json.arr_of (candidate_items r.pair_metrics)))
                  ∷ [])),
          )
          ∷ [])))

  -- one round of the loop over the records
  unfoldable pub render_record :
      Dict (LoadedFeature lib) → Dict (LoadedFeature lib) → ChangeRecord lib → Result (Json Float)
  unfolding record_geometry feature_of
  render_record features_a features_b r = do
    geometry ← record_geometry r features_a features_b
    ok (feature_of geometry r)

  -- `{"type": "FeatureCollection", "features": features}`
  unfoldable pub collection : List (Json Float) → Json Float
  collection features = obj (
      Json.obj_of
        (("type", str "FeatureCollection") ∷ ("features", arr (Json.arr_of features)) ∷ []))

  unfoldable pub render_change_layer :
      List (ChangeRecord lib)
      → Dict (LoadedFeature lib)
      → Dict (LoadedFeature lib)
      → Result (Json Float)
  unfolding collection
  render_change_layer records features_a features_b = do
    geojson_features ← traverse (render_record features_a features_b) records
    ok (collection geojson_features)
