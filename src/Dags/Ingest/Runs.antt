-- ===== src/Dags/Ingest/Runs.antt =====
-- What an ingestion task leaves in the object store and in the table of snapshots.
use gis_vector_map_changes.Prelude.{
  ℕ, String, true, false, some, ok, ◌==◌, ◌≡◌, refl, has_slash, str_append,
}
use gis_vector_map_changes.Json.{Json}
use gis_vector_map_changes.Shapely.{Shapely}
use gis_vector_map_changes.Ingestion.Aoi.{Aoi, load_aoi}
use gis_vector_map_changes.Ingestion.OhsomeClient.{aware}
use gis_vector_map_changes.Ingestion.Snapshot.{SnapshotResult, build_snapshot}
use gis_vector_map_changes.Storage.{
  Client, uri_of, layer_prefix, put_json, get_json, snapshot_object_key,
}
use gis_vector_map_changes.Storage.RoundTrip.{ClientLaw, get_json-put_json}
use gis_vector_map_changes.Db.{Row, upsert_returning}
use gis_vector_map_changes.Db.Idempotent.{IsTable, upsert_returning-Twice}
use gis_vector_map_changes.Db.Lookup.{same_snapshot-KeyLaw}
use gis_vector_map_changes.Db.Snapshots.{
  SnapshotParams, same_snapshot, upsert_snapshot, snapshot_row,
}
use gis_vector_map_changes.Publish.{PostGis}
use gis_vector_map_changes.Dags.{Params, Outside, World, parse_instant}
use gis_vector_map_changes.Dags.Ingest.{
  Ingested, put, save_snapshot, snapshot_params, object_key, fetch_and_persist_snapshot,
}

-- The documentation of S3: an object of any size that the code puts is stored, and is the one that is got.
pub record StoreLaw (client : Client) : Type 0 where
  pub stores :
      (s : client.State) (bucket key body : String)
      → (next : client.State) × (client.put_object s bucket key body ≡ ok next)
  pub client_law : ClientLaw client

-- the keys of the two objects of a snapshot
abbrev pub object_path : String → String → String → String → String → String → String
object_path source layer aoi_id aoi_version t name =
    str_append (layer_prefix "snapshots" source layer aoi_id aoi_version)
      (str_append "requested_time=" (str_append t name))

module _ (lib : Shapely) (out : Outside lib) (db : PostGis lib) where
  open lib use {Float}
  open out use {client, dumps, loads, strptime, strftime, lower, post, aoi_file, bucket}

  -- `result` is the snapshot that the task builds with these parameters.
  pub record IsIngestion (params : Params) (requested_time_str : String)
      (result : SnapshotResult lib lower strftime) : Type 0 where
    pub aoi : Aoi Float
    pub time : ℕ
    pub is_aoi : load_aoi aoi_file ≡ ok aoi
    pub version : (aoi.aoi_version == params.aoi_version) ≡ true
    pub parsed : parse_instant strptime requested_time_str ≡ ok time
    pub built :
        build_snapshot lib lower strftime dumps post aoi (aware time) params.source_query_version
        ≡ ok result

  pub put-uri_of :
      StoreLaw client
      → (key : String) (object : Json Float) (w : World lib out db)
      → (store : client.State) × (put_json client dumps loads w.store bucket key object
          ≡ ok (store, uri_of bucket key))
        × (put lib out db key object w ≡ (ok (uri_of bucket key), record w { store = store }))
  unfolding put put_json
  put-uri_of law key object w =
      let (next, stored) = law.stores w.store bucket key (dumps object) in
      (next, rw stored refl, rw (put, put_json, stored) refl)

  save_snapshot-row :
      (now : ℕ) (params : SnapshotParams) (w : World lib out db)
      → IsTable same_snapshot same_snapshot-KeyLaw w.snapshots
      → (r : Row SnapshotParams) × ((upsert_returning same_snapshot now w.snapshots params).1.0
          ≡ some r)
        × (save_snapshot lib out db now params w ≡ (
          ok (record {
            id = r.id;
            ingestion_time = r.time;
            created = (upsert_returning same_snapshot now w.snapshots params).1.1;
          }),
          record w { snapshots = (upsert_returning same_snapshot now w.snapshots params).0 },
        ))
  unfolding save_snapshot upsert_snapshot snapshot_row
  save_snapshot-row now params w h =
      let twice =
        upsert_returning-Twice same_snapshot same_snapshot-KeyLaw now now w.snapshots params h in
      (twice.row, twice.first, rw twice.first refl)

  -- the URIs that the task stores
  abbrev pub object_uri : SnapshotResult lib lower strftime → String → String → String
  object_uri result t name =
      uri_of bucket (object_path result.source result.layer result.aoi_id result.aoi_version t name)

  abbrev pub raw_uri_of : SnapshotResult lib lower strftime → String → String
  raw_uri_of result t = object_uri result t "/raw.geojson"

  abbrev pub processed_uri_of : SnapshotResult lib lower strftime → String → String
  processed_uri_of result t = object_uri result t "/processed.geojson"

  -- and the parameters of its row
  abbrev pub stored_params : SnapshotResult lib lower strftime → String → SnapshotParams
  stored_params result t =
      snapshot_params lib out db result (raw_uri_of result t) (processed_uri_of result t)

  raw_key_lem :
      (result : SnapshotResult lib lower strftime) (t : String)
      → object_key lib out db result t "raw"
        ≡ ok (
            object_path result.source result.layer result.aoi_id result.aoi_version t
              "/raw.geojson")
  unfolding object_key snapshot_object_key
  raw_key_lem result t = refl

  processed_key_lem :
      (result : SnapshotResult lib lower strftime) (t : String)
      → object_key lib out db result t "processed"
        ≡ ok (
            object_path result.source result.layer result.aoi_id result.aoi_version t
              "/processed.geojson")
  unfolding object_key snapshot_object_key
  processed_key_lem result t = refl

  -- The text of a value is read back.
  abbrev pub IsRead : Json Float → Type 0
  IsRead object = loads (dumps object) ≡ ok object

  -- What the task has done.
  pub record Ingests (now : ℕ) (params : Params) (t : String)
      (result : SnapshotResult lib lower strftime) (w after : World lib out db) (done : Ingested)
      (row : Row SnapshotParams) : Type 0 where
    pub returned : fetch_and_persist_snapshot lib out db now params t w ≡ (ok done, after)
    pub id : done.snapshot_id ≡ row.id
    pub created :
        done.created ≡ (upsert_returning same_snapshot now w.snapshots (stored_params result t)).1.1
    pub first :
        (upsert_returning same_snapshot now w.snapshots (stored_params result t)).1.0 ≡ some row
    pub snapshots :
        after.snapshots
        ≡ (upsert_returning same_snapshot now w.snapshots (stored_params result t)).0
    pub features : after.features ≡ w.features
    -- the processed object is the one of this task
    pub object :
        get_json client dumps loads after.store (processed_uri_of result t)
        ≡ ok result.processed_geojson

  pub fetch_and_persist_snapshot-Ingests :
      StoreLaw client
      → has_slash bucket ≡ false
      → (now : ℕ) (params : Params) (t : String) (result : SnapshotResult lib lower strftime)
      → IsIngestion params t result
      → IsRead result.processed_geojson
      → (w : World lib out db) → IsTable same_snapshot same_snapshot-KeyLaw w.snapshots
      → (after : World lib out db) × (done : Ingested) × (row : Row SnapshotParams) × Ingests now
          params t result w after done row
  unfolding fetch_and_persist_snapshot
  fetch_and_persist_snapshot-Ingests law plain now params t result ing reads w h =
      let path = object_path result.source result.layer result.aoi_id result.aoi_version t in
      let (store1, _, put1) = put-uri_of law (path "/raw.geojson") result.raw_geojson w in
      let w1 : World lib out db = record w { store = store1 } in
      let (store2, json2, put2) =
        put-uri_of law (path "/processed.geojson") result.processed_geojson w1 in
      let w2 : World lib out db = record w1 { store = store2 } in
      let stored = stored_params result t in
      let (row, first, saved) = save_snapshot-row now stored w2 h in
      (
        record w2 { snapshots = (upsert_returning same_snapshot now w.snapshots stored).0 },
        record {
          snapshot_id = row.id;
          requested_time = t;
          feature_count = result.feature_count;
          invalid_geometry_count = result.invalid_geometry_count;
          repaired_geometry_count = result.repaired_geometry_count;
          created = (upsert_returning same_snapshot now w.snapshots stored).1.1;
        },
        row,
        record {
          returned =
              rw
                (
                  ing.is_aoi,
                  ing.version,
                  ing.parsed,
                  ing.built,
                  raw_key_lem result t,
                  put1,
                  processed_key_lem result t,
                  put2,
                  saved,
                )
                refl;
          id = refl;
          created = refl;
          first = first;
          snapshots = refl;
          features = refl;
          object =
              get_json-put_json client dumps loads law.client_law w1.store store2 bucket
                (path "/processed.geojson") (processed_uri_of result t) result.processed_geojson
                plain reads json2;
        },
      )
