-- ===== src/Db/Lookup.antt =====
-- What an upsert of src/db/ stored, a lookup with the same natural key finds.
use gis_vector_map_changes.Prelude.{ℕ, some, ok, arith, ◌≡◌, refl, eq_iff, eq_refl}
use gis_vector_map_changes.Db.{Table, upsert_returning}
use gis_vector_map_changes.Db.Idempotent.{KeyLaw, IsTable, upsert_returning-Twice}
use gis_vector_map_changes.Db.Snapshots.{
  SnapshotParams, same_snapshot, SnapshotRow, upsert_snapshot, SnapshotLookup, get_snapshot,
}
use gis_vector_map_changes.Db.Changesets.{same_changeset}

pub same_snapshot-KeyLaw : KeyLaw same_snapshot
same_snapshot-KeyLaw = record {
  same = λ p. ground (
    arith,
    eq_refl p.source,
    eq_refl p.source_query_version,
    eq_refl p.layer,
    eq_refl p.aoi_id,
    eq_refl p.aoi_version,
  );
  agree = λ p q r h.
      let e1 : p.source ≡ q.source = ground (arith, eq_iff p.source q.source) in
      let e2 : p.source_query_version ≡ q.source_query_version =
        ground (arith, eq_iff p.source_query_version q.source_query_version) in
      let e3 : p.layer ≡ q.layer = ground (arith, eq_iff p.layer q.layer) in
      let e4 : p.aoi_id ≡ q.aoi_id = ground (arith, eq_iff p.aoi_id q.aoi_id) in
      let e5 : p.aoi_version ≡ q.aoi_version = ground (arith, eq_iff p.aoi_version q.aoi_version) in
      let e6 : p.requested_time ≡ q.requested_time = ground arith in
      rw (e1, e2, e3, e4, e5, e6) refl;
}

pub same_changeset-KeyLaw : KeyLaw same_changeset
same_changeset-KeyLaw = record {
  same = λ p. ground (arith, eq_refl p.algorithm_version);
  agree = λ p q r h. ground (arith, eq_iff p.algorithm_version q.algorithm_version);
}

-- Where the natural key of the table is unique, `upsert_snapshot` returns a row, and `get_snapshot` then
-- finds a row with the same id.
pub get_snapshot-upsert_snapshot :
    (now : ℕ) (t : Table SnapshotParams) (p : SnapshotParams)
    → IsTable same_snapshot same_snapshot-KeyLaw t
    → (r : SnapshotRow) × (found : SnapshotLookup) × ((upsert_snapshot now t p).1 ≡ ok r)
      × (get_snapshot (upsert_snapshot now t p).0 p ≡ some found)
      × (found.id ≡ r.id)
unfolding upsert_snapshot get_snapshot
get_snapshot-upsert_snapshot now t p h =
    let w = upsert_returning-Twice same_snapshot same_snapshot-KeyLaw now now t p h in
    (
      record {
        id = w.row.id;
        ingestion_time = w.row.time;
        created = (upsert_returning same_snapshot now t p).1.1;
      },
      record { id = w.row.id; processed_object_uri = w.row.params.processed_object_uri },
      rw w.first refl,
      rw (get_snapshot, w.stored) refl,
      refl,
    )
