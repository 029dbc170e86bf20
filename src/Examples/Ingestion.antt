-- ===== src/Examples/Ingestion.antt =====
-- The theorems on the ingestion task, at a store and tables of one area of interest.
use gis_vector_map_changes.Prelude.{
  Result, Bool, Dict, String, List, [], ◌∷◌, true, false, ok, err, db_error, All2, ◌==◌,
  if◌then◌else◌, traverse, ◌≡◌, refl,
}
use gis_vector_map_changes.Json
use gis_vector_map_changes.Json.{Json, obj, arr, str, null}
use gis_vector_map_changes.Ingestion.Aoi.{Aoi, load_aoi}
use gis_vector_map_changes.Ingestion.Snapshot.{SnapshotResult, build_snapshot}
use gis_vector_map_changes.Db.{select_in}
use gis_vector_map_changes.Dags.{Params, Outside, World, key_columns, parse_instant}
use gis_vector_map_changes.Dags.Ingest.{Ingested, fetch_and_persist_snapshot}
use gis_vector_map_changes.Dags.Ingest.Runs.{StoreLaw, IsIngestion}
use gis_vector_map_changes.Dags.Ingest.Stored.{IsLookup}
use gis_vector_map_changes.Dags.Ingest.Served.{
  later_on, kept_world, fetch_and_persist_snapshot-fetch_snapshot,
  fetch_and_persist_snapshot-overwrites, fetch_and_persist_snapshot_again,
}
use gis_vector_map_changes.Dags.BuildChangesets.{snapshot_ref, fetch_snapshot}
use gis_vector_map_changes.Examples.Cells.{
  Fraction, cells_world, cells_mapping_law, insertion_order,
}
use gis_vector_map_changes.Examples.Snapshots.{invalid_raw, instant, lower, response, snapshot}
use gis_vector_map_changes.Examples.Storage.{local, local_law, empty_table, empty-IsTable}
use gis_vector_map_changes.Examples.Publish.{cells_db, made, snapshot-IsSnapshot, made-HasTextName}
use gis_vector_map_changes.Publish.Tables.{all_different}
use gis_vector_map_changes.Publish.Features.Snapshots.{all_polygonal, raw_osm_id, not_polygonal}
use gis_vector_map_changes.Ingestion.OhsomeClient.{aware}
use gis_vector_map_changes.Dags.PublishToPostgis.{publish_snapshot}
use gis_vector_map_changes.Dags.PublishToPostgis.Published.{
  told, fetch_and_persist_snapshot-publish_snapshot,
}

abbrev pub aoi_file : Json Fraction → Json Fraction
aoi_file geometry = obj (
    Json.obj_of (
      (
        "features",
        arr (
            Json.arr_of (
              obj (
                Json.obj_of (
                  (
                    "properties",
                    obj (Json.obj_of (("aoi_id", str "haifa") ∷ ("aoi_version", str "v1") ∷ [])),
                  )
                  ∷ ("geometry", geometry)
                  ∷ []))
              ∷ [])),
      )
      ∷ []))

-- A store whose objects are read back as the one snapshot.
abbrev services : Outside cells_world
services = record {
  client = local;
  dumps = λ j. "snapshot";
  loads = λ s. ok snapshot.processed_geojson;
  strptime = λ s f. ok 0;
  strftime = instant;
  lower = lower;
  post = λ endpoint payload. ok response;
  aoi_file = aoi_file null;
  bucket = "gis";
  order = insertion_order;
}

pub local-StoreLaw : StoreLaw local
local-StoreLaw = record { stores = λ s bucket key body. (_, refl); client_law = local_law }

abbrev pub params : Params
params = record {
  source = "openstreetmap-ohsome";
  layer = "building";
  aoi_id = "haifa";
  aoi_version = "v1";
  source_query_version = "v2";
  algorithm_version = "v1";
}

abbrev haifa_aoi : Aoi Fraction
haifa_aoi = record {
  aoi_id = "haifa";
  aoi_version = "v1";
  geometry = null;
  properties = obj (Json.obj_of (("aoi_id", str "haifa") ∷ ("aoi_version", str "v1") ∷ []));
}

abbrev time : String
time = "2020-01-01T00:00:00Z"

snapshot-IsIngestion : IsIngestion cells_world services cells_db params time snapshot
unfolding load_aoi build_snapshot Json.get_or Json.obj_of Json.as_list Json.arr_of Json.get
    Json.index Json.as_str parse_instant traverse Json.as_optional_str Json.as_bool
    Json.optional_str
snapshot-IsIngestion = record {
  aoi = haifa_aoi;
  time = 0;
  is_aoi = refl;
  version = refl;
  parsed = refl;
  built = refl;
}

params-IsLookup : IsLookup cells_world services cells_db params params snapshot-IsIngestion.aoi
unfolding snapshot-IsIngestion
params-IsLookup = record {
  source = refl;
  layer = refl;
  aoi_id = refl;
  aoi_version = refl;
  source_query_version = refl;
}

abbrev empty_world : World cells_world services cells_db
empty_world = record {
  store = [];
  snapshots = empty_table;
  changesets = record { rows = []; next_id = 1 };
  features = [];
  changes = [];
}

fetch_and_persist_snapshot-fetch_snapshot_example :
    (after : World cells_world services cells_db) × (done : Ingested) × (fetch_and_persist_snapshot
        cells_world services cells_db 30 params time empty_world
      ≡ (ok done, after))
    × (done.created ≡ true)
    × (fetch_snapshot cells_world services cells_db params time after ≡ (
      ok (
        snapshot_ref done.snapshot_id (key_columns params snapshot-IsIngestion.time),
        snapshot.processed_geojson,
      ),
      after,
    ))
unfolding select_in
fetch_and_persist_snapshot-fetch_snapshot_example =
    fetch_and_persist_snapshot-fetch_snapshot cells_world services cells_db local-StoreLaw refl 30
      params params time snapshot snapshot-IsIngestion refl params-IsLookup empty_world
      empty-IsTable refl

fetch_and_persist_snapshot_again_example :
    (after : World cells_world services cells_db) × (end : World cells_world services cells_db)
    × (done : Ingested) × (again : Ingested) × (fetch_and_persist_snapshot cells_world services
          cells_db 30 params time empty_world
        ≡ (ok done, after))
    × (fetch_and_persist_snapshot cells_world services cells_db 40 params time after
        ≡ (ok again, end))
    × (again.snapshot_id ≡ done.snapshot_id)
    × (again.created ≡ false)
    × (end.snapshots.rows ≡ after.snapshots.rows)
fetch_and_persist_snapshot_again_example =
    fetch_and_persist_snapshot_again cells_world services cells_db local-StoreLaw refl 30 40 params
      time snapshot snapshot-IsIngestion refl empty_world empty-IsTable

-- Two snapshots of one instant: the response of the second has no feature any more.
abbrev older_params : Params
older_params = record params { source_query_version = "v1" }

abbrev no_features : Json Fraction
no_features =
    obj (Json.obj_of (("type", str "FeatureCollection") ∷ ("features", arr (Json.arr_of [])) ∷ []))

abbrev first_snapshot : SnapshotResult cells_world lower instant
first_snapshot = record snapshot { source_query_version = "v1" }

abbrev second_snapshot : SnapshotResult cells_world lower instant
second_snapshot = record snapshot {
  raw_geojson = obj Json.end;
  processed_geojson = no_features;
  feature_count = 0;
  invalid_geometry_count = 0;
  repaired_geometry_count = 0;
}

-- whether a FeatureCollection has no feature
abbrev has_none : Result (Json Fraction) → Bool
has_none (ok (arr Json.nil)) = true
has_none _ = false

-- A store whose objects are read back as either of the two.
abbrev two_texts : Outside cells_world
two_texts = record services {
  dumps = λ j. if has_none (Json.get_or j "features" null) then "none" else "snapshot";
  loads = λ s. if s == "none" then ok no_features else ok snapshot.processed_geojson;
}

abbrev no_answer : String → Dict String → Result (Json Fraction)
no_answer endpoint payload = ok (obj Json.end)

first-IsIngestion : IsIngestion cells_world two_texts cells_db older_params time first_snapshot
unfolding load_aoi build_snapshot Json.get_or Json.obj_of Json.as_list Json.arr_of Json.get
    Json.index Json.as_str parse_instant traverse Json.as_optional_str Json.as_bool
    Json.optional_str
first-IsIngestion = record {
  aoi = haifa_aoi;
  time = 0;
  is_aoi = refl;
  version = refl;
  parsed = refl;
  built = refl;
}

second-IsIngestion :
    IsIngestion cells_world
      (later_on cells_world two_texts cells_db no_answer)
      cells_db
      params
      time
      second_snapshot
unfolding load_aoi build_snapshot Json.get_or Json.obj_of Json.as_list Json.arr_of Json.get
    Json.index Json.as_str parse_instant traverse
second-IsIngestion = record {
  aoi = haifa_aoi;
  time = 0;
  is_aoi = refl;
  version = refl;
  parsed = refl;
  built = refl;
}

first-IsLookup : IsLookup cells_world two_texts cells_db older_params older_params haifa_aoi
first-IsLookup = record {
  source = refl;
  layer = refl;
  aoi_id = refl;
  aoi_version = refl;
  source_query_version = refl;
}

abbrev nothing_stored : World cells_world two_texts cells_db
nothing_stored = record {
  store = [];
  snapshots = empty_table;
  changesets = record { rows = []; next_id = 1 };
  features = [];
  changes = [];
}

first_read :
    two_texts.loads (two_texts.dumps snapshot.processed_geojson) ≡ ok snapshot.processed_geojson
unfolding Json.get_or Json.find Json.obj_of Json.arr_of
first_read = refl

second_read : two_texts.loads (two_texts.dumps no_features) ≡ ok no_features
unfolding Json.get_or Json.find Json.obj_of Json.arr_of
second_read = refl

fetch_and_persist_snapshot-overwrites_example :
    (mid : World cells_world two_texts cells_db) × (after : World cells_world
      (later_on cells_world two_texts cells_db no_answer)
      cells_db)
    × (done : Ingested) × (again : Ingested) × (fetch_and_persist_snapshot cells_world two_texts
          cells_db 30 older_params time nothing_stored
        ≡ (ok done, mid))
    × (fetch_and_persist_snapshot cells_world
          (later_on cells_world two_texts cells_db no_answer)
          cells_db
          40
          params
          time
          (kept_world cells_world two_texts cells_db no_answer mid)
        ≡ (ok again, after))
    × (fetch_snapshot cells_world
          (later_on cells_world two_texts cells_db no_answer)
          cells_db
          older_params
          time
          after
        ≡ (ok (snapshot_ref done.snapshot_id (key_columns older_params 0), no_features), after))
unfolding select_in first-IsIngestion
fetch_and_persist_snapshot-overwrites_example =
    fetch_and_persist_snapshot-overwrites cells_world two_texts cells_db no_answer local-StoreLaw
      refl 30 40 older_params params older_params time first_snapshot second_snapshot
      first-IsIngestion first_read second-IsIngestion second_read first-IsLookup nothing_stored
      empty-IsTable refl

fetch_and_persist_snapshot-publish_snapshot_example :
    (after : World cells_world services cells_db) × (done : Ingested) × (ids : List String)
    × (fetch_and_persist_snapshot cells_world services cells_db 30 params time empty_world
        ≡ (ok done, after))
    × All2 (λ raw id. raw_osm_id cells_world raw ≡ ok id) (invalid_raw ∷ []) ids
    × ((publish_snapshot cells_world services cells_db params time after).0
        ≡ told cells_world services cells_db done.snapshot_id time (
            if all_polygonal cells_world made
            then if all_different (λ a b. a == b) ids
              then ok 1
              else err (db_error "constraint violated")
            else not_polygonal))
unfolding select_in all_different
fetch_and_persist_snapshot-publish_snapshot_example =
    fetch_and_persist_snapshot-publish_snapshot cells_world services cells_db local-StoreLaw
      cells_mapping_law refl 30 params params time snapshot snapshot-IsIngestion refl
      params-IsLookup empty_world empty-IsTable refl refl response (aware 0) (invalid_raw ∷ []) made
      snapshot-IsSnapshot (made-HasTextName, tt)
