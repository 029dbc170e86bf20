-- ===== src/Publish.antt =====
-- src/publish/postgis.py: the rows of the serving tables. PostGIS, `MultiPolygon`, `wkb_hex` and
-- `json.dumps` are parameters. The serial ids of the rows are left out.
pub mod Tables
pub mod Staging
pub mod Different
pub mod Features
pub mod Changes
use gis_vector_map_changes.Prelude.{
  ℕ, String, List, [], ◌∷◌, Bool, true, false, not, Option, none, some, Result, ok, err,
  value_error, ◌==◌, ◌>>=◌, if◌then◌else◌, traverse,
}
use gis_vector_map_changes.Json
use gis_vector_map_changes.Json.{Json, obj, end, arr, nil}
use gis_vector_map_changes.Shapely.{Shapely}

-- What the publishing code takes from outside beside shapely.
pub record PostGis (lib : Shapely) : Type 1 where
  -- `MultiPolygon([g])`
  pub multi_polygon : lib.Geometry → lib.Geometry
  -- `g.wkb_hex`
  pub wkb_hex : lib.Geometry → String
  pub Geom : Type 0
  -- `ST_SetSRID(hex::geometry, 4326)`
  pub from_hex : String → Geom
  -- `ST_Transform(g, 3857)`
  pub to_3857 : Geom → Geom
  -- `ST_Multi(ST_Union(g))` over at least one row
  pub union_rows : Geom → List Geom → Geom
  -- `json.dumps`
  pub dumps : Json lib.Float → String

-- A row of `staging_snapshot_features`, as `_snapshot_feature_rows` yields it.
pub record StagedFeature : Type 0 where
  pub osm_id : String
  pub osm_type : String
  pub building : Option String
  pub category : Option String
  pub name : Option String
  pub raw_tags : String
  pub original_valid : Bool
  pub repair_method : Option String
  pub geom_hex : String

-- A row of `staging_change_features`, as `_change_feature_rows` yields it.
pub record StagedChange (F : Type 0) : Type 0 where
  pub classification : String
  pub match_method : Option String
  pub match_score : Option F
  pub classification_reason : String
  pub osm_ids_a : List String
  pub osm_ids_b : List String
  pub involves_repaired_geometry : Bool
  pub touches_aoi_boundary : Bool
  pub iou : Option F
  pub iou_centroid_aligned : Option F
  pub centroid_shift_m : Option F
  pub area_ratio : Option F
  pub hausdorff_m : Option F
  pub attrs_changed : List String
  pub candidates : String
  pub geom_hex : String

-- `candidates[0] if len(candidates) == 1 else {}`
unfoldable pub only_metrics : {F : Type 0} → List (Json F) → Json F
only_metrics (metrics ∷ []) = metrics
only_metrics candidates = obj end

module _ (lib : Shapely) (db : PostGis lib) where
  open lib use {Float, Geometry, geom_type, shape}
  open db use {multi_polygon, wkb_hex, dumps}

  unfoldable pub as_multipolygon : Geometry → Result Geometry
  as_multipolygon geometry =
      if geom_type geometry == "MultiPolygon"
      then ok geometry
      else if geom_type geometry == "Polygon"
      then ok (multi_polygon geometry)
      else err (value_error "snapshots should contain only polygonal geometry")

  -- `_geom_hex`
  unfoldable pub geom_hex_of : Json Float → Result String
  unfolding as_multipolygon
  geom_hex_of geojson_geometry = do
    geometry ← shape geojson_geometry
    multi ← as_multipolygon geometry
    ok (wkb_hex multi)

  -- one round of `_snapshot_feature_rows`
  unfoldable pub snapshot_feature_row : Json Float → Result StagedFeature
  unfolding geom_hex_of
  snapshot_feature_row feature = do
    props ← Json.index feature "properties"
    id ← Json.index props "osm_id"
    osm_id ← Json.as_str id
    kind ← Json.index props "osm_type"
    osm_type ← Json.as_str kind
    building ← (Json.get props "building" >>= Json.as_optional_str)
    category ← (Json.get props "category" >>= Json.as_optional_str)
    name ← (Json.get props "name" >>= Json.as_optional_str)
    tags ← Json.get_or props "raw_tags" (obj end)
    valid ← Json.index props "original_valid"
    original_valid ← Json.as_bool valid
    repair_method ← (Json.get props "repair_method" >>= Json.as_optional_str)
    outline ← Json.index feature "geometry"
    geom_hex ← geom_hex_of outline
    ok (record {
      osm_id = osm_id;
      osm_type = osm_type;
      building = building;
      category = category;
      name = name;
      raw_tags = dumps tags;
      original_valid = original_valid;
      repair_method = repair_method;
      geom_hex = geom_hex;
    })

  -- one round of `_change_feature_rows`
  unfoldable pub change_feature_row : Json Float → Result (StagedChange Float)
  unfolding geom_hex_of only_metrics
  change_feature_row feature = do
    props ← Json.index feature "properties"
    listed ← Json.get_or props "candidates" (arr nil)
    candidates ← Json.as_list listed
    let metrics = only_metrics candidates
    classification ← (Json.index props "classification" >>= Json.as_str)
    match_method ← (Json.get props "match_method" >>= Json.as_optional_str)
    match_score ← (Json.get props "match_score" >>= Json.as_optional_num)
    classification_reason ← (Json.index props "classification_reason" >>= Json.as_str)
    osm_ids_a ← (Json.get_or props "osm_ids_a" (arr nil) >>= Json.as_strs)
    osm_ids_b ← (Json.get_or props "osm_ids_b" (arr nil) >>= Json.as_strs)
    repaired ← (Json.index props "involves_repaired_geometry" >>= Json.as_bool)
    touches ← (Json.index props "touches_aoi_boundary" >>= Json.as_bool)
    iou ← (Json.get metrics "iou" >>= Json.as_optional_num)
    iou_centroid_aligned ← (Json.get metrics "iou_centroid_aligned" >>= Json.as_optional_num)
    centroid_shift_m ← (Json.get metrics "centroid_shift_m" >>= Json.as_optional_num)
    area_ratio ← (Json.get metrics "area_ratio" >>= Json.as_optional_num)
    hausdorff_m ← (Json.get metrics "hausdorff_m" >>= Json.as_optional_num)
    attrs_changed ← (Json.get_or metrics "attrs_changed" (arr nil) >>= Json.as_strs)
    outline ← Json.index feature "geometry"
    geom_hex ← geom_hex_of outline
    ok (record {
      classification = classification;
      match_method = match_method;
      match_score = match_score;
      classification_reason = classification_reason;
      osm_ids_a = osm_ids_a;
      osm_ids_b = osm_ids_b;
      involves_repaired_geometry = repaired;
      touches_aoi_boundary = touches;
      iou = iou;
      iou_centroid_aligned = iou_centroid_aligned;
      centroid_shift_m = centroid_shift_m;
      area_ratio = area_ratio;
      hausdorff_m = hausdorff_m;
      attrs_changed = attrs_changed;
      candidates = dumps listed;
      geom_hex = geom_hex;
    })
