-- ===== src/Examples/Snapshots.antt =====
-- A small ohsome response, and the theorems on ingestion at it.
use gis_vector_map_changes.Prelude.{
  ℕ, String, List, [], ◌∷◌, true, false, some, ok, In, traverse, ◌≡◌, refl, All,
}
use gis_vector_map_changes.Json
use gis_vector_map_changes.Json.{Json, Fields, obj, arr, str, null, nil, end}
use gis_vector_map_changes.Matching.Crs.{to_metric}
use gis_vector_map_changes.Matching.Features.{load_feature}
use gis_vector_map_changes.Matching.Candidates.{is_empty}
use gis_vector_map_changes.Ingestion.BuildingCategory.{all_categories, categorize, categorize-In}
use gis_vector_map_changes.Ingestion.Validate.{ValidationResult, is_polygonal, validate_and_repair}
use gis_vector_map_changes.Ingestion.Validate.Outcome.{
  UnionLaw, Honest, validate_and_repair-Honest, repair-is_polygonal,
}
use gis_vector_map_changes.Ingestion.Aoi.{Aoi}
use gis_vector_map_changes.Ingestion.OhsomeClient.{aware}
use gis_vector_map_changes.Ingestion.Snapshot.{
  normal_feature, normalize_feature, SnapshotResult, build_snapshot_from_raw, parse_osm_id, or_null,
}
use gis_vector_map_changes.Ingestion.Snapshot.Tallied.{Normalized}
use gis_vector_map_changes.Ingestion.Snapshot.Normal.{
  IsSnapshot, parse_osm_id_lem, build_snapshot_from_raw-IsSnapshot,
}
use gis_vector_map_changes.Ingestion.Snapshot.Handover.{
  normal_attrs, normalize_feature-load_feature,
}
use gis_vector_map_changes.Examples.Cells.{
  Cells, Fraction, cells_world, cells_mapping, cells_mapping_law,
}

abbrev pub bowtie : Cells
bowtie = record { kind = "Bowtie"; cells = 3 ∷ 4 ∷ [] }

-- a shape with no area
abbrev spike : Cells
spike = record { kind = "Bowtie"; cells = [] }

abbrev pub instant : ℕ → String
instant t = "2020-01-01T00:00:00Z"

abbrev pub lower : String → String
lower s = s

abbrev pub raw_properties : String → String → Fields Fraction
raw_properties osm_id valid_from = Json.obj_of (
    ("@osmId", str osm_id)
    ∷ ("@validFrom", str valid_from)
    ∷ ("building", str "house")
    ∷ ("name", str "Mill")
    ∷ [])

abbrev pub raw_feature : String → String → Cells → Json Fraction
raw_feature osm_id valid_from g = obj (
    Json.obj_of
      (("geometry", cells_mapping g) ∷ ("properties", obj (raw_properties osm_id valid_from)) ∷ []))

-- One feature with an invalid geometry, and a later edit of it.
abbrev pub invalid_raw : Json Fraction
invalid_raw = raw_feature "way/5" "2020-01-01T00:00:00Z" bowtie

abbrev pub response : Json Fraction
response = obj (
    Json.obj_of (
      (
        "features",
        arr (Json.arr_of (invalid_raw ∷ raw_feature "way/5" "2020-01-01T00:00:01Z" bowtie ∷ [])),
      )
      ∷ []))

abbrev pub aoi : Aoi Fraction
aoi = record { aoi_id = "haifa"; aoi_version = "v1"; geometry = null; properties = obj end }

abbrev pub normal : Json Fraction
normal =
    normal_feature cells_world lower instant "way/5" (some "house") (str "Mill")
      (raw_properties "way/5" "2020-01-01T00:00:00Z") (validate_and_repair cells_world bowtie)

pub normalized : normalize_feature cells_world lower instant invalid_raw ≡ ok normal
unfolding normalize_feature Json.get_or Json.obj_of Json.as_str Json.index Json.as_list traverse
    Json.arr_of Json.get Json.as_optional_str
normalized = refl

unfoldable pub invalid_Normalized :
    Normalized cells_world lower instant invalid_raw normal (validate_and_repair cells_world bowtie)
unfolding Json.get_or Json.index Json.get Json.obj_of Json.find Json.as_str Json.as_optional_str
    or_null
invalid_Normalized = record {
  returned = normalized;
  props = obj (raw_properties "way/5" "2020-01-01T00:00:00Z");
  outline = cells_mapping bowtie;
  source_geometry = bowtie;
  osm_id = "way/5";
  building_tag = some "house";
  name = some (str "Mill");
  tags = raw_properties "way/5" "2020-01-01T00:00:00Z";
  got_props = refl;
  got_osm_id = refl;
  got_building = refl;
  got_outline = refl;
  read_outline = cells_mapping_law.shape-mapping bowtie;
  got_name = refl;
  validated = refl;
  built = refl;
}

named : Json.as_optional_str invalid_Normalized.name ≡ ok (some "Mill")
unfolding Json.as_optional_str invalid_Normalized
named = refl

normalize_feature-load_feature_example :
    load_feature cells_world normal
    ≡ ok (record {
      osm_id = "way/5";
      geometry = to_metric cells_world (validate_and_repair cells_world bowtie).geometry;
      attrs = normal_attrs cells_world lower instant (some "house") (some "Mill");
      repaired = true;
    })
unfolding invalid_Normalized
normalize_feature-load_feature_example =
    normalize_feature-load_feature cells_world lower instant cells_mapping_law invalid_raw normal
      (validate_and_repair cells_world bowtie) invalid_Normalized (some "Mill") named

abbrev pub snapshot : SnapshotResult cells_world lower instant
snapshot = record {
  source = "openstreetmap-ohsome";
  source_query_version = "v2";
  layer = "building";
  aoi_id = "haifa";
  aoi_version = "v1";
  requested_time = aware 0;
  crs = "OGC:CRS84";
  raw_geojson = response;
  processed_geojson = obj (
      Json.obj_of
        (("type", str "FeatureCollection") ∷ ("features", arr (Json.arr_of (normal ∷ []))) ∷ []));
  feature_count = 1;
  invalid_geometry_count = 1;
  repaired_geometry_count = 1;
}

snapshot_built :
    build_snapshot_from_raw cells_world lower instant response aoi (aware 0) "v2" ≡ ok snapshot
unfolding build_snapshot_from_raw Json.get_or Json.obj_of Json.as_list Json.arr_of Json.get
    Json.as_str Json.index traverse Json.as_optional_str Json.as_bool Json.optional_str
snapshot_built = refl

build_snapshot_from_raw-IsSnapshot_example :
    (selected : List (Json Fraction)) × (made : List (Json Fraction × ValidationResult cells_world))
    × IsSnapshot cells_world lower instant response (aware 0) snapshot selected made
build_snapshot_from_raw-IsSnapshot_example =
    build_snapshot_from_raw-IsSnapshot cells_world lower instant response aoi (aware 0) "v2"
      snapshot snapshot_built

validate_and_repair-Honest_example :
    Honest cells_world bowtie (validate_and_repair cells_world bowtie)
validate_and_repair-Honest_example = validate_and_repair-Honest cells_world bowtie

union_polygonal :
    (gs : List Cells)
    → is_empty gs ≡ false
    → All (λ g. is_polygonal cells_world g ≡ true) gs
    → is_polygonal cells_world (cells_world.unary_union gs) ≡ true
union_polygonal [] h all = refl
union_polygonal (g ∷ gs) h all = refl

cells_union_law : UnionLaw cells_world
cells_union_law = record { union_polygonal = union_polygonal }

repair-is_polygonal_example :
    is_polygonal cells_world (validate_and_repair cells_world bowtie).geometry ≡ true
repair-is_polygonal_example = repair-is_polygonal cells_world cells_union_law bowtie refl refl

categorize-In_example : In (categorize lower (some "garage")) all_categories
categorize-In_example = categorize-In lower (some "garage")

parse_osm_id_lem_example : parse_osm_id "way/12" ≡ ("way", "12")
parse_osm_id_lem_example = parse_osm_id_lem "way" "12" refl
