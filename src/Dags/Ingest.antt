-- ===== src/Dags/Ingest.antt =====
-- dags/ingest_osm_building_snapshots.py
pub mod Runs
pub mod Stored
pub mod Served
use gis_vector_map_changes.Prelude.{ℕ, String, Bool, Result, ok, err, value_error, ◌==◌}
use gis_vector_map_changes.Json.{Json}
use gis_vector_map_changes.Shapely.{Shapely}
use gis_vector_map_changes.Ingestion.Aoi.{Aoi, load_aoi}
use gis_vector_map_changes.Ingestion.OhsomeClient.{Datetime, aware, naive}
use gis_vector_map_changes.Ingestion.Snapshot.{SnapshotResult, build_snapshot}
use gis_vector_map_changes.Storage.{put_json, snapshot_object_key}
use gis_vector_map_changes.Db.Snapshots.{SnapshotParams, SnapshotRow, upsert_snapshot}
use gis_vector_map_changes.Publish.{PostGis}
use gis_vector_map_changes.Dags.{Params, Outside, World, parse_instant}
use gis_vector_map_changes.Dags.Task.{Task, pure, lift, ensure, ◌>>=◌, ◌>>◌}

-- The seconds of a `datetime` that is stored.
unfoldable pub seconds : Datetime → ℕ
seconds (aware t) = t
seconds (naive t) = t

-- The dict that `fetch_and_persist_snapshot` returns.
pub record Ingested : Type 0 where
  pub snapshot_id : ℕ
  pub requested_time : String
  pub feature_count : ℕ
  pub invalid_geometry_count : ℕ
  pub repaired_geometry_count : ℕ
  pub created : Bool

module _ (lib : Shapely) (out : Outside lib) (db : PostGis lib) where
  open lib use {Float}
  open out use {client, dumps, loads, strptime, strftime, lower, post, aoi_file, bucket}

  abbrev pub Run : Type 0 → Type 0
  Run A = Task (World lib out db) A

  -- `put_json` to the bucket
  unfoldable pub put : String → Json Float → Run String
  put key object w = elim (put_json client dumps loads w.store bucket key object) [
    | ok (store, uri) ↦ (ok uri, record w { store = store })
    | err e ↦ (err e, w)
  ]

  -- `upsert_snapshot` on the connection
  unfoldable pub save_snapshot : ℕ → SnapshotParams → Run SnapshotRow
  save_snapshot now params w =
      let (snapshots, row) = upsert_snapshot now w.snapshots params in
      (row, record w { snapshots = snapshots })

  -- the dict of the upsert
  unfoldable pub snapshot_params :
      SnapshotResult lib lower strftime → String → String → SnapshotParams
  snapshot_params result raw_uri processed_uri = record {
    source = result.source;
    source_query_version = result.source_query_version;
    layer = result.layer;
    aoi_id = result.aoi_id;
    aoi_version = result.aoi_version;
    requested_time = seconds result.requested_time;
    crs = result.crs;
    raw_object_uri = raw_uri;
    processed_object_uri = processed_uri;
    feature_count = result.feature_count;
    invalid_geometry_count = result.invalid_geometry_count;
    repaired_geometry_count = result.repaired_geometry_count;
  }

  -- `snapshot_object_key(**key_kwargs, kind=kind)`
  unfoldable pub object_key : SnapshotResult lib lower strftime → String → String → Result String
  object_key result requested_time_str kind =
      snapshot_object_key result.source result.layer result.aoi_id result.aoi_version
        requested_time_str kind

  -- `now` is the time of the database.
  unfoldable pub fetch_and_persist_snapshot : ℕ → Params → String → Run Ingested
  fetch_and_persist_snapshot now params requested_time_str = do
    aoi ← lift (load_aoi aoi_file)
    ensure (aoi.aoi_version == params.aoi_version)
        (value_error "aoi_version does not match the AOI file")
    requested_time ← lift (parse_instant strptime requested_time_str)
    result ← lift (
        build_snapshot lib lower strftime dumps post aoi (aware requested_time)
          params.source_query_version)
    raw_key ← lift (object_key result requested_time_str "raw")
    raw_uri ← put raw_key result.raw_geojson
    processed_key ← lift (object_key result requested_time_str "processed")
    processed_uri ← put processed_key result.processed_geojson
    row ← save_snapshot now (snapshot_params result raw_uri processed_uri)
    pure (record {
      snapshot_id = row.id;
      requested_time = requested_time_str;
      feature_count = result.feature_count;
      invalid_geometry_count = result.invalid_geometry_count;
      repaired_geometry_count = result.repaired_geometry_count;
      created = row.created;
    })
