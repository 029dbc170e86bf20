-- ===== src/Matching/Pipeline.antt =====
-- src/matching/pipeline.py
pub mod Counts
pub mod Outcome
pub mod Parts
use gis_vector_map_changes.Prelude.{
  ℕ, ◌+◌, String, List, [], ◌∷◌, Bool, true, false, not, Option, none, some, Dict, index, insert,
  keep, HashOrder, Result, ok, err, value_error, ◌>>=◌, ◌>>◌, ◌==◌, if◌then◌else◌,
}
use gis_vector_map_changes.Json.{Json}
use gis_vector_map_changes.Shapely.{Shapely}
use gis_vector_map_changes.Matching.Config.{algorithm_version}
use gis_vector_map_changes.Matching.Crs.{to_metric}
use gis_vector_map_changes.Matching.Features.{load_features}
use gis_vector_map_changes.Matching.Changeset.Records.{
  Classification, ChangeRecord, classifications, classification_text,
}
use gis_vector_map_changes.Matching.Changeset.Build.{build_changeset}
use gis_vector_map_changes.Matching.Render.{render_change_layer}
use gis_vector_map_changes.Matching.Candidates.{is_empty}

-- `requested_time` is the instant as a count of seconds.
pub record SnapshotRef : Type 0 where
  pub id : ℕ
  pub source : String
  pub layer : String
  pub aoi_id : String
  pub aoi_version : String
  pub source_query_version : String
  pub requested_time : ℕ

-- `_COMPARABLE_FIELDS`, each with its `getattr`
abbrev pub comparable_fields : List (String × (SnapshotRef → String))
comparable_fields =
    ("source", λ s. s.source)
    ∷ ("layer", λ s. s.layer)
    ∷ ("aoi_id", λ s. s.aoi_id)
    ∷ ("aoi_version", λ s. s.aoi_version)
    ∷ ("source_query_version", λ s. s.source_query_version)
    ∷ []

-- the comprehension for `mismatches`
unfoldable pub mismatches_in :
    List (String × (SnapshotRef → String)) → SnapshotRef → SnapshotRef → List String
mismatches_in [] a b = []
mismatches_in ((f, field) ∷ rest) a b =
    let found = mismatches_in rest a b in if not (field a == field b) then f ∷ found else found

unfoldable pub validate_comparable : SnapshotRef → SnapshotRef → Result (Unit {0})
unfolding mismatches_in
validate_comparable snapshot_a snapshot_b =
    if is_empty (mismatches_in comparable_fields snapshot_a snapshot_b)
    then ok tt
    else err (value_error "snapshots are not comparable")

-- `dict.fromkeys(CLASSIFICATIONS, 0)`
unfoldable pub zeros : List Classification → Dict ℕ
zeros [] = []
zeros (c ∷ cs) = (classification_text c, 0) ∷ zeros cs

module _ (lib : Shapely) where
  open lib use {Float, Geometry, shape, boundary}

  -- the loop `counts[record.classification] += 1`
  unfoldable pub count_records : Dict ℕ → List (ChangeRecord lib) → Result (Dict ℕ)
  count_records counts [] = ok counts
  count_records counts (r ∷ rest) = do
    n ← index counts (classification_text r.classification)
    count_records (insert (classification_text r.classification) (n + 1) counts) rest

  pub record ChangesetResult : Type 0 where
    pub version : String
    pub records : List (ChangeRecord lib)
    pub counts : Dict ℕ
    pub change_layer_geojson : Json Float

  -- `_aoi_boundary_in_metric_crs`
  unfoldable pub aoi_boundary_in_metric_crs : Option (Json Float) → Result (Option Geometry)
  aoi_boundary_in_metric_crs none = ok none
  aoi_boundary_in_metric_crs (some aoi_geometry) = do
    outline ← shape aoi_geometry
    ok (some (boundary (to_metric lib outline)))

  unfoldable pub build_changeset_result :
      HashOrder
      → SnapshotRef
      → SnapshotRef
      → Json Float
      → Json Float
      → Option (Json Float)
      → Result ChangesetResult
  unfolding aoi_boundary_in_metric_crs
  build_changeset_result order snapshot_a snapshot_b processed_geojson_a processed_geojson_b
        aoi_geometry =
      do
        validate_comparable snapshot_a snapshot_b
        features_a ← load_features lib processed_geojson_a
        features_b ← load_features lib processed_geojson_b
        aoi_boundary ← aoi_boundary_in_metric_crs aoi_geometry
        records ← build_changeset lib order features_a features_b aoi_boundary
        counts ← count_records (zeros classifications) records
        change_layer_geojson ← render_change_layer lib records features_a features_b
        ok (record {
          version = algorithm_version;
          records = records;
          counts = counts;
          change_layer_geojson = change_layer_geojson;
        })
