-- ===== src/Dags/PublishToPostgis/Published.antt =====
-- Publishing what an ingestion task has persisted.
use gis_vector_map_changes.Prelude.{
  [], ◌∷◌, map, arith, inl, inr, Bool-cases, ℕ, String, List, true, false, some, none, Result, ok,
  err, db_error, All, All2, ◌==◌, ◌≡◌, refl, sym, ap, ◌∙◌, has_slash, if◌then◌else◌,
}
use gis_vector_map_changes.Json.{Json}
use gis_vector_map_changes.Shapely.{Shapely, MappingLaw}
use gis_vector_map_changes.Ingestion.OhsomeClient.{Datetime}
use gis_vector_map_changes.Ingestion.Snapshot.{SnapshotResult}
use gis_vector_map_changes.Ingestion.Snapshot.Tallied.{features_of}
use gis_vector_map_changes.Ingestion.Snapshot.Normal.{IsSnapshot}
use gis_vector_map_changes.Db.{Row, select_in, select_existing}
use gis_vector_map_changes.Db.Idempotent.{IsTable, some_injective}
use gis_vector_map_changes.Db.Lookup.{same_snapshot-KeyLaw}
use gis_vector_map_changes.Db.Snapshots.{SnapshotParams, same_snapshot}
use gis_vector_map_changes.Publish.{PostGis}
use gis_vector_map_changes.Publish.Tables.{
  has_id, all_different, same_feature, publish_snapshot_features,
}
use gis_vector_map_changes.Publish.Features.Snapshots.{
  Made, HasTextName, all_polygonal, raw_osm_id, not_polygonal,
  build_snapshot-publish_snapshot_features,
}
use gis_vector_map_changes.Dags.{Params, Outside, World, key_columns, natural_key}
use gis_vector_map_changes.Dags.Ingest.{Ingested, fetch_and_persist_snapshot}
use gis_vector_map_changes.Dags.Ingest.Runs.{StoreLaw, IsIngestion, IsRead}
use gis_vector_map_changes.Dags.Ingest.Stored.{
  IsLookup, fetch_and_persist_snapshot-Stores, get_snapshot-found,
}
use gis_vector_map_changes.Dags.PublishToPostgis.{
  ids_of, SnapshotPublished, find_snapshot, publish_features, publish_snapshot,
}
use gis_vector_map_changes.Dags.BuildChangesets.{fetch}
use gis_vector_map_changes.Storage.{get_json}

has_id-select_in :
    (rows : List (Row SnapshotParams)) (key : SnapshotParams) (row : Row SnapshotParams)
    → select_in same_snapshot rows key ≡ some row
    → has_id (map (λ r. r.id) rows) row.id ≡ true
unfolding select_in
has_id-select_in [] key row h = cc
has_id-select_in (r ∷ rows) key row h = elim (Bool-cases (same_snapshot r.params key)) [
  | inl same ↦
      let e : r ≡ row =
        some_injective same_snapshot same_snapshot-KeyLaw {r = r} {q = row}
          (sym (rw same refl) ∙ h) in
      ground (arith, ap (λ x. x.id) e)
  | inr other ↦ let rest = has_id-select_in rows key row (sym (rw other refl) ∙ h) in ground arith
]

module _ (lib : Shapely) (out : Outside lib) (db : PostGis lib) where
  open lib use {Float}
  open out use {client, dumps, loads, strptime, strftime, lower, bucket}

  -- what `publish_snapshot` returns, by what `publish_snapshot_features` returns
  abbrev pub told : ℕ → String → Result ℕ → Result SnapshotPublished
  told id t (ok n) = ok (record { snapshot_id = id; requested_time = t; features_written = n })
  told id t (err e) = err e

  published :
      (lookup : Params) (t : String) (key : SnapshotParams) (row : Row SnapshotParams)
      (geojson : Json Float) (w : World lib out db) (written : Result ℕ)
      → natural_key strptime lookup t ≡ ok key
      → select_existing same_snapshot w.snapshots key ≡ some row
      → get_json client dumps loads w.store row.params.processed_object_uri ≡ ok geojson
      → (publish_snapshot_features lib db (ids_of w.snapshots) w.features row.id geojson).1
        ≡ written
      → (publish_snapshot lib out db lookup t w).0 ≡ told row.id t written
  unfolding publish_snapshot find_snapshot publish_features fetch
  published lookup t key row geojson w (ok n) named found got wrote =
      rw (named, get_snapshot-found w.snapshots key row found, got, wrote) refl
  published lookup t key row geojson w (err e) named found got raised =
      rw (named, get_snapshot-found w.snapshots key row found, got, raised) refl

  -- Where the store and the AOI file are available, the snapshot can be built and its text is read back, its
  -- natural key has no row yet, shapely reads what it writes, the names of the features are texts or missing and no
  -- feature is published twice, the ingestion task returns, and publishing the snapshot then tells the id and the number of
  -- features of the ingestion, if every geometry is a Polygon or a MultiPolygon and no two selected raw features have the same
  -- osm_id; otherwise it raises for the geometry, or else for the osm_ids.
  pub fetch_and_persist_snapshot-publish_snapshot :
      StoreLaw client
      → MappingLaw lib
      → has_slash bucket ≡ false
      → (now : ℕ) (params lookup : Params) (t : String) (result : SnapshotResult lib lower strftime)
      → (ing : IsIngestion lib out db params t result) → IsRead lib out db result.processed_geojson
      → IsLookup lib out db params lookup ing.aoi
      → (w : World lib out db) → IsTable same_snapshot same_snapshot-KeyLaw w.snapshots
      → select_existing same_snapshot w.snapshots (key_columns lookup ing.time) ≡ none
      → all_different same_feature w.features ≡ true
      → (raw_geojson : Json Float) (time : Datetime) (selected : List (Json Float))
        (made : List (Made lib))
      → IsSnapshot lib lower strftime raw_geojson time result selected made
      → All (HasTextName lib) (features_of lib lower strftime made)
      → (after : World lib out db) × (done : Ingested) × (ids : List String)
        × (fetch_and_persist_snapshot lib out db now params t w ≡ (ok done, after))
        × All2 (λ raw id. raw_osm_id lib raw ≡ ok id) selected ids
        × ((publish_snapshot lib out db lookup t after).0
            ≡ told done.snapshot_id t (
                if all_polygonal lib made
                then if all_different (λ a b. a == b) ids
                  then ok result.feature_count
                  else err (db_error "constraint violated")
                else not_polygonal))
  fetch_and_persist_snapshot-publish_snapshot law mapping_law plain now params lookup t result ing
        reads look w h missing unique raw_geojson time selected made is_snapshot named =
      let (after, done, row, s) =
        fetch_and_persist_snapshot-Stores lib out db law plain now params lookup t result ing reads
          look w h missing in
      let outcome : List String → Result ℕ = λ ids.
        if all_polygonal lib made
        then if all_different (λ a b. a == b) ids
          then ok result.feature_count
          else err (db_error "constraint violated")
        else not_polygonal in
      let unique_after : all_different same_feature after.features ≡ true =
        ap (all_different same_feature) s.features ∙ unique in
      let (ids, are_ids, wrote) =
        build_snapshot-publish_snapshot_features lib db lower strftime mapping_law raw_geojson time
          result selected made is_snapshot named (ids_of after.snapshots) after.features row.id
          (has_id-select_in after.snapshots.rows (key_columns lookup ing.time) row s.found)
          unique_after in
      (
        after,
        done,
        ids,
        s.returned,
        are_ids,
        published lookup t (key_columns lookup ing.time) row result.processed_geojson after
              (outcome ids) s.named s.found s.got wrote
            ∙ ap (λ id. told id t (outcome ids)) (sym s.id),
      )
