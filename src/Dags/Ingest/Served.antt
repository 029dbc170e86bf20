-- ===== src/Dags/Ingest/Served.antt =====
-- What a comparison fetches after ingestion tasks.
use gis_vector_map_changes.Prelude.{
  Dict, Result, ok_injective, refl, ℕ, String, true, false, some, none, ok, ◌≡◌, sym, ap, ◌∙◌,
  subst, has_slash,
}
use gis_vector_map_changes.Shapely.{Shapely}
use gis_vector_map_changes.Ingestion.Snapshot.{SnapshotResult}
use gis_vector_map_changes.Storage.{get_json}
use gis_vector_map_changes.Db.{upsert_returning, select_existing}
use gis_vector_map_changes.Db.Idempotent.{IsTable, some_injective, upsert_returning-Twice}
use gis_vector_map_changes.Db.Lookup.{same_snapshot-KeyLaw}
use gis_vector_map_changes.Db.Kept.{upsert_returning-kept}
use gis_vector_map_changes.Db.Snapshots.{same_snapshot}
use gis_vector_map_changes.Publish.{PostGis}
use gis_vector_map_changes.Dags.{Params, Outside, World, key_columns}
use gis_vector_map_changes.Dags.Ingest.{Ingested, fetch_and_persist_snapshot}
use gis_vector_map_changes.Dags.Ingest.Runs.{
  StoreLaw, IsIngestion, IsRead, stored_params, processed_uri_of,
  fetch_and_persist_snapshot-Ingests,
}
use gis_vector_map_changes.Dags.BuildChangesets.{snapshot_ref, fetch_snapshot}
use gis_vector_map_changes.Json.{Json}
use gis_vector_map_changes.Dags.Ingest.Stored.{
  IsLookup, build_snapshot_lem, fetched, fetch_and_persist_snapshot-Stores,
}

module _ (lib : Shapely) (out : Outside lib) (db : PostGis lib) where
  open lib use {Float}
  open out use {client, dumps, loads, strptime, strftime, lower, post, aoi_file, bucket}

  -- Where the store and the AOI file are available, the snapshot can be built and its text is read back, and
  -- its natural key has no row yet, the ingestion task returns the id of a new row, and a comparison that looks the
  -- snapshot up gets this id and the processed GeoJSON of the task.
  pub fetch_and_persist_snapshot-fetch_snapshot :
      StoreLaw client
      → has_slash bucket ≡ false
      → (now : ℕ) (params lookup : Params) (t : String) (result : SnapshotResult lib lower strftime)
      → (ing : IsIngestion lib out db params t result) → IsRead lib out db result.processed_geojson
      → IsLookup lib out db params lookup ing.aoi
      → (w : World lib out db) → IsTable same_snapshot same_snapshot-KeyLaw w.snapshots
      → select_existing same_snapshot w.snapshots (key_columns lookup ing.time) ≡ none
      → (after : World lib out db) × (done : Ingested) × (fetch_and_persist_snapshot lib out db now
            params t w
          ≡ (ok done, after))
        × (done.created ≡ true)
        × (fetch_snapshot lib out db lookup t after ≡ (
          ok (
            snapshot_ref done.snapshot_id (key_columns lookup ing.time),
            result.processed_geojson,
          ),
          after,
        ))
  fetch_and_persist_snapshot-fetch_snapshot law plain now params lookup t result ing reads look w h
        missing =
      let (after, done, row, s) =
        fetch_and_persist_snapshot-Stores lib out db law plain now params lookup t result ing reads
          look w h missing in
      let key = key_columns lookup ing.time in
      (
        after,
        done,
        s.returned,
        s.created,
        fetched lib out db lookup t key row result.processed_geojson after s.named s.found s.got
            ∙ ap (λ id. (ok (snapshot_ref id key, result.processed_geojson), after)) (sym s.id),
      )

  -- Where the store and the AOI file are available and the snapshot can be built and its text is read back, a
  -- second run of the ingestion task returns the id of the first one and that its row is not new, and it leaves the rows as they are.
  pub fetch_and_persist_snapshot_again :
      StoreLaw client
      → has_slash bucket ≡ false
      → (now later : ℕ) (params : Params) (t : String) (result : SnapshotResult lib lower strftime)
      → IsIngestion lib out db params t result
      → IsRead lib out db result.processed_geojson
      → (w : World lib out db) → IsTable same_snapshot same_snapshot-KeyLaw w.snapshots
      → (after : World lib out db) × (end : World lib out db) × (done : Ingested)
        × (again : Ingested) × (fetch_and_persist_snapshot lib out db now params t w
            ≡ (ok done, after))
        × (fetch_and_persist_snapshot lib out db later params t after ≡ (ok again, end))
        × (again.snapshot_id ≡ done.snapshot_id)
        × (again.created ≡ false)
        × (end.snapshots.rows ≡ after.snapshots.rows)
  fetch_and_persist_snapshot_again law plain now later params t result ing reads w h =
      let stored = stored_params lib out db result t in
      let (after, done, row, i) =
        fetch_and_persist_snapshot-Ingests lib out db law plain now params t result ing reads w h in
      let twice =
        upsert_returning-Twice same_snapshot same_snapshot-KeyLaw now later w.snapshots stored h in
      let table : IsTable same_snapshot same_snapshot-KeyLaw after.snapshots =
        subst (IsTable same_snapshot same_snapshot-KeyLaw) (sym i.snapshots) twice.table in
      let (end, again, row2, j) =
        fetch_and_persist_snapshot-Ingests lib out db law plain later params t result ing reads
          after table in
      let second : (upsert_returning same_snapshot later after.snapshots stored).1
          ≡ (some twice.row, false) =
        ap (λ s. (upsert_returning same_snapshot later s stored).1) i.snapshots ∙ twice.again in
      let same : row2 ≡ row =
        some_injective same_snapshot same_snapshot-KeyLaw {r = row2} {q = row}
          (sym j.first ∙ ap (λ p. p.0) second ∙ sym twice.first ∙ i.first) in
      (
        after,
        end,
        done,
        again,
        i.returned,
        j.returned,
        j.id ∙ ap (λ r. r.id) same ∙ sym i.id,
        j.created ∙ ap (λ p. p.1) second,
        ap (λ s. s.rows) j.snapshots
            ∙ ap (λ s. (upsert_returning same_snapshot later s stored).0.rows) i.snapshots
            ∙ twice.kept
            ∙ ap (λ s. s.rows) (sym i.snapshots),
      )

-- The ohsome API answers otherwise later on: all else is as before.
module _ (lib : Shapely) (out : Outside lib) (db : PostGis lib)
    (post : String → Dict String → Result (Json lib.Float)) where
  open out use {client, strftime, lower, bucket}

  abbrev pub later_on : Outside lib
  later_on = record out { post = post }

  abbrev pub kept_world : World lib out db → World lib later_on db
  kept_world w = record {
    store = w.store;
    snapshots = w.snapshots;
    changesets = w.changesets;
    features = w.features;
    changes = w.changes;
  }

  -- The query version is no part of the key of an object.
  same_object :
      (older params : Params) (t : String) (first second : SnapshotResult lib lower strftime)
      → IsIngestion lib out db older t first
      → IsIngestion lib later_on db params t second
      → processed_uri_of lib out db first t ≡ processed_uri_of lib later_on db second t
  same_object older params t first second one two =
      let (source1, layer1, aoi_id1, aoi_version1, _, _) =
        build_snapshot_lem lib out db one.aoi one.time older.source_query_version first one.built in
      let (source2, layer2, aoi_id2, aoi_version2, _, _) =
        build_snapshot_lem lib later_on db two.aoi two.time params.source_query_version second
          two.built in
      let aoi = ok_injective (sym one.is_aoi ∙ two.is_aoi) in
      rw
        (
          source1 ∙ sym source2,
          layer1 ∙ sym layer2,
          aoi_id1 ∙ ap (λ a. a.aoi_id) aoi ∙ sym aoi_id2,
          aoi_version1 ∙ ap (λ a. a.aoi_version) aoi ∙ sym aoi_version2,
        )
        refl

  -- Where the store and the AOI file are available, two snapshots of one instant can be built, with any query
  -- versions and from any two responses, their texts are read back, and the natural key of the first has no row yet, the
  -- ingestion of the second overwrites the object of the first: a comparison that looks the first one up gets the GeoJSON of
  -- the second with the id of the row of the first.
  pub fetch_and_persist_snapshot-overwrites :
      StoreLaw client
      → has_slash bucket ≡ false
      → (now later : ℕ) (older params lookup : Params) (t : String)
        (first second : SnapshotResult lib lower strftime)
      → (one : IsIngestion lib out db older t first) → IsRead lib out db first.processed_geojson
      → IsIngestion lib later_on db params t second
      → IsRead lib later_on db second.processed_geojson
      → IsLookup lib out db older lookup one.aoi
      → (w : World lib out db) → IsTable same_snapshot same_snapshot-KeyLaw w.snapshots
      → select_existing same_snapshot w.snapshots (key_columns lookup one.time) ≡ none
      → (mid : World lib out db) × (after : World lib later_on db) × (done : Ingested)
        × (again : Ingested) × (fetch_and_persist_snapshot lib out db now older t w
            ≡ (ok done, mid))
        × (fetch_and_persist_snapshot lib later_on db later params t (kept_world mid)
            ≡ (ok again, after))
        × (fetch_snapshot lib later_on db lookup t after ≡ (
          ok (
            snapshot_ref done.snapshot_id (key_columns lookup one.time),
            second.processed_geojson,
          ),
          after,
        ))
  fetch_and_persist_snapshot-overwrites law plain now later older params lookup t first second one
        reads1 two reads2 look w h missing =
      let key = key_columns lookup one.time in
      let (mid, done, row, s) =
        fetch_and_persist_snapshot-Stores lib out db law plain now older lookup t first one reads1
          look w h missing in
      let (after, again, _, i) =
        fetch_and_persist_snapshot-Ingests lib later_on db law plain later params t second two
          reads2 (kept_world mid) s.table in
      let kept : select_existing same_snapshot after.snapshots key ≡ some row =
        ap (λ table. select_existing same_snapshot table key) i.snapshots
        ∙ upsert_returning-kept same_snapshot same_snapshot-KeyLaw later mid.snapshots
            (stored_params lib later_on db second t) key row s.found in
      let uri = s.uri ∙ same_object older params t first second one two in
      (
        mid,
        after,
        done,
        again,
        s.returned,
        i.returned,
        fetched lib later_on db lookup t key row second.processed_geojson after s.named kept
              (ap (λ u. get_json client out.dumps out.loads after.store u) uri ∙ i.object)
            ∙ ap (λ id. (ok (snapshot_ref id key, second.processed_geojson), after)) (sym s.id),
      )
