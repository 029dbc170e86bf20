-- ===== src/Db/Snapshots.antt =====
-- src/db/snapshots.py
use gis_vector_map_changes.Prelude.{
  ℕ, String, Bool, ◌&&◌, Option, none, some, Result, ok, err, type_error, eqb, ◌==◌,
}
use gis_vector_map_changes.Db.{Row, Table, select_existing, upsert_returning}

-- The parameters of `_UPSERT_SQL`; `requested_time` is the instant as a count of seconds.
pub record SnapshotParams : Type 0 where
  pub source : String
  pub source_query_version : String
  pub layer : String
  pub aoi_id : String
  pub aoi_version : String
  pub requested_time : ℕ
  pub crs : String
  pub raw_object_uri : String
  pub processed_object_uri : String
  pub feature_count : ℕ
  pub invalid_geometry_count : ℕ
  pub repaired_geometry_count : ℕ

-- the columns of `_NATURAL_KEY_WHERE`
abbrev pub same_snapshot : SnapshotParams → SnapshotParams → Bool
same_snapshot p q =
    p.source == q.source
    && p.source_query_version == q.source_query_version
    && p.layer == q.layer
    && p.aoi_id == q.aoi_id
    && p.aoi_version == q.aoi_version
    && eqb p.requested_time q.requested_time

pub record SnapshotRow : Type 0 where
  pub id : ℕ
  pub ingestion_time : ℕ
  pub created : Bool

pub record SnapshotLookup : Type 0 where
  pub id : ℕ
  pub processed_object_uri : String

-- `SnapshotRow(id=row[0], ingestion_time=row[1], created=created)`
unfoldable pub snapshot_row : Option (Row SnapshotParams) → Bool → Result SnapshotRow
snapshot_row none created = err (type_error "no row")
snapshot_row (some r) created =
    ok (record { id = r.id; ingestion_time = r.time; created = created })

unfoldable pub upsert_snapshot :
    ℕ → Table SnapshotParams → SnapshotParams → Table SnapshotParams × Result SnapshotRow
unfolding upsert_returning snapshot_row
upsert_snapshot now t params =
    let (next, (row, created)) = upsert_returning same_snapshot now t params in
    (next, snapshot_row row created)

unfoldable pub get_snapshot : Table SnapshotParams → SnapshotParams → Option SnapshotLookup
get_snapshot t params = elim (select_existing same_snapshot t params) [
  | none ↦ none
  | some r ↦ some (record { id = r.id; processed_object_uri = r.params.processed_object_uri })
]
