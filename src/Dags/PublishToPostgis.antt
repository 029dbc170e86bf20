-- ===== src/Dags/PublishToPostgis.antt =====
-- dags/publish_to_postgis.py
pub mod Agreement
pub mod Published
use gis_vector_map_changes.Prelude.{ℕ, String, List, map, Option, none, some, Result, value_error}
use gis_vector_map_changes.Json.{Json}
use gis_vector_map_changes.Shapely.{Shapely}
use gis_vector_map_changes.Db.{Table}
use gis_vector_map_changes.Db.Snapshots.{SnapshotParams, SnapshotLookup, get_snapshot}
use gis_vector_map_changes.Db.Changesets.{ChangesetParams, ChangesetLookup, get_changeset}
use gis_vector_map_changes.Publish.{PostGis}
use gis_vector_map_changes.Publish.Tables.{publish_snapshot_features, publish_change_features}
use gis_vector_map_changes.Dags.{Params, Pair, Outside, World, natural_key}
use gis_vector_map_changes.Dags.Task.{Task, pure, lift, or_raise, ◌>>=◌}
use gis_vector_map_changes.Dags.Ingest.{Run}
use gis_vector_map_changes.Dags.BuildChangesets.{fetch}

-- The dicts that the two tasks return.
pub record SnapshotPublished : Type 0 where
  pub snapshot_id : ℕ
  pub requested_time : String
  pub features_written : ℕ

pub record ChangesetPublished : Type 0 where
  pub changeset_id : ℕ
  pub interval : Pair
  pub change_records_written : ℕ

-- the natural key of a changeset; a lookup reads no other column
unfoldable pub changeset_key : ℕ → ℕ → String → ChangesetParams
changeset_key snapshot_a_id snapshot_b_id algorithm_version = record {
  snapshot_a_id = snapshot_a_id;
  snapshot_b_id = snapshot_b_id;
  algorithm_version = algorithm_version;
  change_layer_object_uri = "";
  unchanged_count = 0;
  modified_geometry_count = 0;
  modified_attributes_count = 0;
  modified_geometry_and_attributes_count = 0;
  added_count = 0;
  removed_count = 0;
  ambiguous_count = 0;
}

-- `snap_a is None or snap_b is None`
abbrev pub both_found :
    Option SnapshotLookup → Option SnapshotLookup → Option (SnapshotLookup × SnapshotLookup)
both_found (some a) (some b) = some (a, b)
both_found a b = none

-- the ids that a foreign key may refer to
abbrev pub ids_of : {P : Type 0} → Table P → List ℕ
ids_of t = map (λ r. r.id) t.rows

module _ (lib : Shapely) (out : Outside lib) (db : PostGis lib) where
  open lib use {Float}
  open out use {strptime}

  -- `get_snapshot(pg_conn, natural_key(params, requested_time_str))`
  unfoldable pub find_snapshot : Params → String → Run lib out db (Option SnapshotLookup)
  find_snapshot params requested_time_str = do
    key ← lift (natural_key strptime params requested_time_str)
    (λ w. pure (get_snapshot w.snapshots key) w)

  -- the calls of src/publish/postgis.py on the connection
  unfoldable pub publish_features : ℕ → Json Float → Run lib out db ℕ
  publish_features snapshot_id processed w =
      let (features, written) =
        publish_snapshot_features lib db (ids_of w.snapshots) w.features snapshot_id processed in
      (written, record w { features = features })

  unfoldable pub publish_changes : ℕ → ℕ → ℕ → Json Float → Run lib out db ℕ
  publish_changes changeset_id a b change_layer w =
      let (changes, written) =
        publish_change_features lib db (ids_of w.changesets) w.features w.changes changeset_id a b
          change_layer in
      (written, record w { changes = changes })

  unfoldable pub publish_snapshot : Params → String → Run lib out db SnapshotPublished
  publish_snapshot params requested_time_str = do
    found ← find_snapshot params requested_time_str
    lookup ← or_raise found (value_error "no ingested snapshot")
    processed ← fetch lib out db lookup.processed_object_uri
    written ← publish_features lookup.id processed
    pure (record {
      snapshot_id = lookup.id;
      requested_time = requested_time_str;
      features_written = written;
    })

  unfoldable pub publish_changeset : Params → Pair → Run lib out db ChangesetPublished
  publish_changeset params pair = do
    found_a ← find_snapshot params pair.requested_time_a
    found_b ← find_snapshot params pair.requested_time_b
    (snap_a, snap_b) ←
        or_raise (both_found found_a found_b) (value_error "missing ingested snapshot(s)")
    changeset ← (λ w.
        or_raise
          (get_changeset w.changesets (changeset_key snap_a.id snap_b.id params.algorithm_version))
          (value_error "no computed changeset") w)
    change_layer ← fetch lib out db changeset.change_layer_object_uri
    written ← publish_changes changeset.id snap_a.id snap_b.id change_layer
    pure (record { changeset_id = changeset.id; interval = pair; change_records_written = written })
