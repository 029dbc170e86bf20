-- ===== src/Ingestion/Snapshot.antt =====
-- src/ingestion/snapshot.py
pub mod Selected
pub mod Tallied
pub mod Normal
pub mod Handover
use gis_vector_map_changes.Prelude.{
  before_slash, after_slash, starts_with, ℕ, zero, ◌+◌, String, List, [], ◌∷◌, ◌++◌, Bool, true,
  false, not, Option, none, some, Result, ok, err, Dict, type_error, eqb, length, ◌>>=◌, ◌==◌,
  if◌then◌else◌,
}
use gis_vector_map_changes.Json
use gis_vector_map_changes.Json.{Json, Fields, null, bool, str, arr, nil, obj, end, field}
use gis_vector_map_changes.Shapely.{Shapely}
use gis_vector_map_changes.Matching.Features.{is_set}
use gis_vector_map_changes.Ingestion.BuildingCategory.{categorize}
use gis_vector_map_changes.Ingestion.Validate.{ValidationResult, validate_and_repair}
use gis_vector_map_changes.Ingestion.Aoi.{Aoi}
use gis_vector_map_changes.Ingestion.OhsomeClient.{
  Datetime, format_instant, fetch_building_geometries,
}

abbrev pub snapshot_source : String
snapshot_source = "openstreetmap-ohsome"

abbrev pub snapshot_layer : String
snapshot_layer = "building"

abbrev pub snapshot_crs : String
snapshot_crs = "OGC:CRS84"

-- `_parse_osm_id`: `osm_id.partition("/")` without its middle
unfoldable pub parse_osm_id : String → String × String
unfolding before_slash after_slash
parse_osm_id osm_id = (before_slash osm_id, after_slash osm_id)

-- `value == target` of a value of a dict
unfoldable pub is_text : {F : Type 0} → Option (Json F) → String → Bool
is_text none target = false
is_text (some (str s)) target = s == target
is_text (some j) target = false

-- `d.get(k)` as a value of a dict display
unfoldable pub or_null : {F : Type 0} → Option (Json F) → Json F
or_null none = null
or_null (some j) = j

-- the comprehension for `raw_tags`
unfoldable pub raw_tags : {F : Type 0} → Fields F → Fields F
raw_tags end = end
raw_tags (field k v rest) =
    let tags = raw_tags rest in if not (starts_with k "@") then field k v tags else tags

-- `props.items()`
unfoldable pub fields_of : {F : Type 0} → Json F → Result (Fields F)
fields_of (obj d) = ok d
fields_of j = err (type_error "not a dict")

-- `lower` is Python's `str.lower`; `strftime` formats a UTC instant.
module _ (lib : Shapely) (lower : String → String) (strftime : ℕ → String) where
  open lib use {Float, Geometry, shape, mapping}

  -- the condition of `_select_features_valid_at`
  unfoldable pub is_valid_at : String → Json Float → Result Bool
  unfolding is_text
  is_valid_at target feature = do
    props ← Json.get_or feature "properties" (obj end)
    valid_from ← Json.get props "@validFrom"
    ok (is_text valid_from target)

  -- its comprehension
  unfoldable pub select_from : String → List (Json Float) → Result (List (Json Float))
  unfolding is_valid_at
  select_from target [] = ok []
  select_from target (feature ∷ rest) = do
    valid ← is_valid_at target feature
    selected ← select_from target rest
    ok (if valid then feature ∷ selected else selected)

  -- `_select_features_valid_at`
  unfoldable pub select_features_valid_at :
      List (Json Float) → Datetime → Result (List (Json Float))
  unfolding select_from format_instant
  select_features_valid_at raw_features requested_time = do
    target ← format_instant strftime requested_time
    select_from target raw_features

  -- the "properties" of the dict that `normalize_feature` returns
  unfoldable pub normal_properties :
      String → Option String → Json Float → Fields Float → ValidationResult lib → Fields Float
  normal_properties osm_id building_tag name props result = Json.obj_of (
      ("osm_id", str osm_id)
      ∷ ("osm_type", str (parse_osm_id osm_id).0)
      ∷ ("osm_ref", str (parse_osm_id osm_id).1)
      ∷ ("building", Json.optional_str building_tag)
      ∷ ("category", str (categorize lower building_tag))
      ∷ ("name", name)
      ∷ ("raw_tags", obj (raw_tags props))
      ∷ ("original_valid", bool result.original_valid)
      ∷ ("repair_method", Json.optional_str result.repair_method)
      ∷ ("repaired_valid", bool result.repaired_valid)
      ∷ ("original_geometry", mapping result.original_geometry)
      ∷ [])

  -- the dict itself
  unfoldable pub normal_feature :
      String → Option String → Json Float → Fields Float → ValidationResult lib → Json Float
  unfolding normal_properties
  normal_feature osm_id building_tag name props result = obj (
      Json.obj_of (
        ("type", str "Feature")
        ∷ ("geometry", mapping result.geometry)
        ∷ ("properties", obj (normal_properties osm_id building_tag name props result))
        ∷ []))

  unfoldable pub normalize_feature : Json Float → Result (Json Float)
  unfolding normal_feature validate_and_repair fields_of or_null
  normalize_feature raw_feature = do
    props ← Json.get_or raw_feature "properties" (obj end)
    id ← Json.get_or props "@osmId" (str "")
    osm_id ← Json.as_str id
    outline ← Json.index raw_feature "geometry"
    geometry ← shape outline
    building ← Json.get props "building"
    building_tag ← Json.as_optional_str building
    name ← Json.get props "name"
    tags ← fields_of props
    ok (normal_feature osm_id building_tag (or_null name) tags (validate_and_repair lib geometry))

  -- `processed_features`, `invalid_count` and `repaired_count`
  pub record Tally : Type 0 where
    pub processed_features : List (Json Float)
    pub invalid_count : ℕ
    pub repaired_count : ℕ

  -- the body of the loop of `build_snapshot_from_raw`, once the feature is normalized
  unfoldable pub tally_feature : Tally → Json Float → Result Tally
  unfolding is_set
  tally_feature t feature = do
    props ← Json.index feature "properties"
    valid ← Json.index props "original_valid"
    original_valid ← Json.as_bool valid
    repair_method ← Json.index props "repair_method"
    ok (record {
      processed_features = t.processed_features ++ (feature ∷ []);
      invalid_count = if not original_valid then t.invalid_count + 1 else t.invalid_count;
      repaired_count =
          if is_set lib (some repair_method) then t.repaired_count + 1 else t.repaired_count;
    })

  -- the loop
  unfoldable pub tally_from : Tally → List (Json Float) → Result Tally
  unfolding normalize_feature tally_feature
  tally_from t [] = ok t
  tally_from t (raw_feature ∷ rest) = do
    feature ← normalize_feature raw_feature
    next ← tally_feature t feature
    tally_from next rest

  pub record SnapshotResult : Type 0 where
    pub source : String
    pub source_query_version : String
    pub layer : String
    pub aoi_id : String
    pub aoi_version : String
    pub requested_time : Datetime
    pub crs : String
    pub raw_geojson : Json Float
    pub processed_geojson : Json Float
    pub feature_count : ℕ
    pub invalid_geometry_count : ℕ
    pub repaired_geometry_count : ℕ

  -- the value that `build_snapshot_from_raw` returns
  unfoldable pub snapshot_result :
      Json Float → Aoi Float → Datetime → String → Tally → SnapshotResult
  snapshot_result raw_geojson aoi requested_time source_query_version t = record {
    source = snapshot_source;
    source_query_version = source_query_version;
    layer = snapshot_layer;
    aoi_id = aoi.aoi_id;
    aoi_version = aoi.aoi_version;
    requested_time = requested_time;
    crs = snapshot_crs;
    raw_geojson = raw_geojson;
    processed_geojson = obj (
        Json.obj_of (
          ("type", str "FeatureCollection")
          ∷ ("features", arr (Json.arr_of t.processed_features))
          ∷ []));
    feature_count = length t.processed_features;
    invalid_geometry_count = t.invalid_count;
    repaired_geometry_count = t.repaired_count;
  }

  unfoldable pub build_snapshot_from_raw :
      Json Float → Aoi Float → Datetime → String → Result SnapshotResult
  unfolding select_features_valid_at tally_from snapshot_result
  build_snapshot_from_raw raw_geojson aoi requested_time source_query_version = do
    listed ← Json.get_or raw_geojson "features" (arr nil)
    raw_features ← Json.as_list listed
    features_at_instant ← select_features_valid_at raw_features requested_time
    tally ←
        tally_from (record { processed_features = []; invalid_count = 0; repaired_count = 0 })
          features_at_instant
    ok (snapshot_result raw_geojson aoi requested_time source_query_version tally)

  -- `dumps` is `json.dumps`, `post` the request of `fetch_building_geometries`.
  unfoldable pub build_snapshot :
      (Json Float → String)
      → (String → Dict String → Result (Json Float))
      → Aoi Float
      → Datetime
      → String
      → Result SnapshotResult
  unfolding fetch_building_geometries build_snapshot_from_raw
  build_snapshot dumps post aoi requested_time source_query_version = do
    raw_geojson ← fetch_building_geometries strftime dumps post aoi.geometry requested_time
    build_snapshot_from_raw raw_geojson aoi requested_time source_query_version
