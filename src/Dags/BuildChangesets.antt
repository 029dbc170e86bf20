-- ===== src/Dags/BuildChangesets.antt =====
-- dags/build_changesets.py
pub mod Persisted
pub mod Comparable
use gis_vector_map_changes.Prelude.{
  ℕ, String, Bool, Dict, index, Result, ok, err, value_error, some, ◌==◌, ◌&&◌,
}
use gis_vector_map_changes.Json.{Json}
use gis_vector_map_changes.Shapely.{Shapely}
use gis_vector_map_changes.Ingestion.Aoi.{Aoi, load_aoi}
use gis_vector_map_changes.Matching.Pipeline.{SnapshotRef, ChangesetResult, build_changeset_result}
use gis_vector_map_changes.Storage.{get_json, changeset_object_key}
use gis_vector_map_changes.Db.Snapshots.{SnapshotParams, get_snapshot}
use gis_vector_map_changes.Db.Changesets.{ChangesetParams, ChangesetRow, upsert_changeset}
use gis_vector_map_changes.Publish.{PostGis}
use gis_vector_map_changes.Dags.{Params, Pair, Outside, World, natural_key}
use gis_vector_map_changes.Dags.Task.{Task, pure, lift, ensure, or_raise, ◌>>=◌, ◌>>◌}
use gis_vector_map_changes.Dags.Ingest.{Run, put}

-- The dict that `build_and_persist_changeset` returns.
pub record Built : Type 0 where
  pub changeset_id : ℕ
  pub pair : Pair
  pub counts : Dict ℕ
  pub created : Bool

-- `SnapshotRef(id=id, **key)`
unfoldable pub snapshot_ref : ℕ → SnapshotParams → SnapshotRef
snapshot_ref id key = record {
  id = id;
  source = key.source;
  layer = key.layer;
  aoi_id = key.aoi_id;
  aoi_version = key.aoi_version;
  source_query_version = key.source_query_version;
  requested_time = key.requested_time;
}

module _ (lib : Shapely) (out : Outside lib) (db : PostGis lib) where
  open lib use {Float}
  open out use {client, dumps, loads, strptime, aoi_file, order}

  -- `get_json`
  unfoldable pub fetch : String → Run lib out db (Json Float)
  fetch uri w = (get_json client dumps loads w.store uri, w)

  -- `_fetch_snapshot`
  unfoldable pub fetch_snapshot : Params → String → Run lib out db (SnapshotRef × Json Float)
  fetch_snapshot params requested_time_str = do
    key ← lift (natural_key strptime params requested_time_str)
    lookup ←
        (λ w. or_raise (get_snapshot w.snapshots key) (value_error "no ingested snapshot found") w)
    geojson ← fetch lookup.processed_object_uri
    pure (snapshot_ref lookup.id key, geojson)

  -- the dict of the upsert
  unfoldable pub changeset_params :
      ℕ → ℕ → ChangesetResult lib → String → Run lib out db ChangesetParams
  changeset_params snapshot_a_id snapshot_b_id result uri = do
    unchanged ← lift (index result.counts "unchanged")
    modified_geometry ← lift (index result.counts "modified_geometry")
    modified_attributes ← lift (index result.counts "modified_attributes")
    both ← lift (index result.counts "modified_geometry_and_attributes")
    added ← lift (index result.counts "added")
    removed ← lift (index result.counts "removed")
    ambiguous ← lift (index result.counts "ambiguous")
    pure (record {
      snapshot_a_id = snapshot_a_id;
      snapshot_b_id = snapshot_b_id;
      algorithm_version = result.version;
      change_layer_object_uri = uri;
      unchanged_count = unchanged;
      modified_geometry_count = modified_geometry;
      modified_attributes_count = modified_attributes;
      modified_geometry_and_attributes_count = both;
      added_count = added;
      removed_count = removed;
      ambiguous_count = ambiguous;
    })

  unfoldable pub save_changeset : ℕ → ChangesetParams → Run lib out db ChangesetRow
  save_changeset now params w =
      let (changesets, row) = upsert_changeset now w.changesets params in
      (row, record w { changesets = changesets })

  unfoldable pub build_and_persist_changeset : ℕ → Params → Pair → Run lib out db Built
  build_and_persist_changeset now params pair = do
    (snapshot_a, geojson_a) ← fetch_snapshot params pair.requested_time_a
    (snapshot_b, geojson_b) ← fetch_snapshot params pair.requested_time_b
    aoi ← lift (load_aoi aoi_file)
    ensure (aoi.aoi_id == params.aoi_id && aoi.aoi_version == params.aoi_version)
        (value_error "requested AOI does not match the AOI file")
    result ← lift (
        build_changeset_result lib order snapshot_a snapshot_b geojson_a geojson_b
          (some aoi.geometry))
    change_layer_uri ←
        put lib out db
          (changeset_object_key params.source params.layer params.aoi_id params.aoi_version
            result.version pair.requested_time_a pair.requested_time_b)
          result.change_layer_geojson
    row_params ← changeset_params snapshot_a.id snapshot_b.id result change_layer_uri
    row ← save_changeset now row_params
    pure (record {
      changeset_id = row.id;
      pair = pair;
      counts = result.counts;
      created = row.created;
    })
