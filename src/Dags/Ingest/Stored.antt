-- ===== src/Dags/Ingest/Stored.antt =====
-- What an ingestion task leaves for the tasks that look the snapshot up.
use gis_vector_map_changes.Prelude.{
  subst, ℕ, String, true, false, some, none, ok, ◌≡◌, refl, sym, ap, ◌∙◌, has_slash, >>=-eq-ok,
  ok_injective, eq_iff,
}
use gis_vector_map_changes.Json
use gis_vector_map_changes.Json.{Json, arr, nil}
use gis_vector_map_changes.Shapely.{Shapely}
use gis_vector_map_changes.Ingestion.OhsomeClient.{aware, fetch_building_geometries}
use gis_vector_map_changes.Ingestion.Aoi.{Aoi}
use gis_vector_map_changes.Ingestion.Snapshot.{
  SnapshotResult, build_snapshot, build_snapshot_from_raw, snapshot_result,
  select_features_valid_at, tally_from, snapshot_source, snapshot_layer,
}
use gis_vector_map_changes.Storage.{get_json}
use gis_vector_map_changes.Db.{Table, Row, select_existing}
use gis_vector_map_changes.Db.Idempotent.{IsTable, upsert_returning-Twice}
use gis_vector_map_changes.Db.Lookup.{same_snapshot-KeyLaw}
use gis_vector_map_changes.Db.Kept.{select_existing-agree, upsert_returning-fresh}
use gis_vector_map_changes.Db.Snapshots.{SnapshotParams, same_snapshot, get_snapshot}
use gis_vector_map_changes.Publish.{PostGis}
use gis_vector_map_changes.Dags.{Params, Outside, World, key_columns, natural_key}
use gis_vector_map_changes.Dags.Ingest.{
  Ingested, seconds, fetch_and_persist_snapshot, snapshot_params,
}
use gis_vector_map_changes.Dags.Ingest.Runs.{
  StoreLaw, IsIngestion, IsRead, stored_params, processed_uri_of,
  fetch_and_persist_snapshot-Ingests,
}
use gis_vector_map_changes.Dags.BuildChangesets.{snapshot_ref, fetch, fetch_snapshot}

pub get_snapshot-found :
    (t : Table SnapshotParams) (key : SnapshotParams) (row : Row SnapshotParams)
    → select_existing same_snapshot t key ≡ some row
    → get_snapshot t key
      ≡ some (record { id = row.id; processed_object_uri = row.params.processed_object_uri })
unfolding get_snapshot
get_snapshot-found t key row found = rw (get_snapshot, found) refl

module _ (lib : Shapely) (out : Outside lib) (db : PostGis lib) where
  open lib use {Float}
  open out use {client, dumps, loads, strptime, strftime, lower, post, aoi_file, bucket}

  -- These parameters, of another DAG, name the snapshot that is ingested with `params`.
  pub record IsLookup (params lookup : Params) (aoi : Aoi Float) : Type 0 where
    pub source : lookup.source ≡ snapshot_source
    pub layer : lookup.layer ≡ snapshot_layer
    pub aoi_id : lookup.aoi_id ≡ aoi.aoi_id
    pub aoi_version : lookup.aoi_version ≡ params.aoi_version
    pub source_query_version : lookup.source_query_version ≡ params.source_query_version

  pub build_snapshot_lem :
      (aoi : Aoi Float) (time : ℕ) (version : String) (result : SnapshotResult lib lower strftime)
      → build_snapshot lib lower strftime dumps post aoi (aware time) version ≡ ok result
      → (result.source ≡ snapshot_source)
        × (result.layer ≡ snapshot_layer)
        × (result.aoi_id ≡ aoi.aoi_id)
        × (result.aoi_version ≡ aoi.aoi_version)
        × (result.source_query_version ≡ version)
        × (result.requested_time ≡ aware time)
  unfolding build_snapshot build_snapshot_from_raw snapshot_result
  build_snapshot_lem aoi time version result h =
      let (raw, _, run1) =
        >>=-eq-ok (fetch_building_geometries strftime dumps post aoi.geometry (aware time)) _ h in
      let (listed, _, run2) = >>=-eq-ok (Json.get_or raw "features" (arr nil)) _ run1 in
      let (raws, _, run3) = >>=-eq-ok (Json.as_list listed) _ run2 in
      let (chosen, _, run4) =
        >>=-eq-ok (select_features_valid_at lib lower strftime raws (aware time)) _ run3 in
      let (t, _, run5) = >>=-eq-ok (tally_from lib lower strftime _ chosen) _ run4 in
      let same = sym (ok_injective run5) in
      (
        ap (λ r. r.source) same,
        ap (λ r. r.layer) same,
        ap (λ r. r.aoi_id) same,
        ap (λ r. r.aoi_version) same,
        ap (λ r. r.source_query_version) same,
        ap (λ r. r.requested_time) same,
      )

  natural_key_lem :
      (params lookup : Params) (t : String) (result : SnapshotResult lib lower strftime)
      → (ing : IsIngestion lib out db params t result)
      → natural_key strptime lookup t ≡ ok (key_columns lookup ing.time)
  unfolding natural_key
  natural_key_lem params lookup t result ing = rw ing.parsed refl

  -- A row of the result has the natural key of the lookup.
  is_key :
      (params lookup : Params) (t : String) (result : SnapshotResult lib lower strftime)
      → (ing : IsIngestion lib out db params t result) → IsLookup params lookup ing.aoi
      → same_snapshot (stored_params lib out db result t) (key_columns lookup ing.time) ≡ true
  unfolding snapshot_params seconds
  is_key params lookup t result ing look =
      let (source, layer, aoi_id, aoi_version, version, time) =
        build_snapshot_lem ing.aoi ing.time params.source_query_version result ing.built in
      let same_version : ing.aoi.aoi_version ≡ params.aoi_version =
        (eq_iff ing.aoi.aoi_version params.aoi_version).0 ing.version in
      let key = key_columns lookup ing.time in
      rw
        (
          source ∙ sym look.source,
          layer ∙ sym look.layer,
          aoi_id ∙ sym look.aoi_id,
          aoi_version ∙ same_version ∙ sym look.aoi_version,
          version ∙ sym look.source_query_version,
          time,
        )
        (same_snapshot-KeyLaw.same key)

  pub fetched :
      (lookup : Params) (t : String) (key : SnapshotParams) (row : Row SnapshotParams)
      (geojson : Json Float) (w : World lib out db)
      → natural_key strptime lookup t ≡ ok key
      → select_existing same_snapshot w.snapshots key ≡ some row
      → get_json client dumps loads w.store row.params.processed_object_uri ≡ ok geojson
      → fetch_snapshot lib out db lookup t w ≡ (ok (snapshot_ref row.id key, geojson), w)
  unfolding fetch_snapshot fetch
  fetched lookup t key row geojson w named found got =
      rw (named, get_snapshot-found w.snapshots key row found, got) refl

  stored_uri :
      (result : SnapshotResult lib lower strftime) (t : String)
      → (stored_params lib out db result t).processed_object_uri
        ≡ processed_uri_of lib out db result t
  unfolding snapshot_params
  stored_uri result t = refl

  -- What a first ingestion leaves for the tasks that look the snapshot up.
  pub record Stores (now : ℕ) (params lookup : Params) (t : String) (time : ℕ)
      (result : SnapshotResult lib lower strftime) (w after : World lib out db) (done : Ingested)
      (row : Row SnapshotParams) : Type 0 where
    pub returned : fetch_and_persist_snapshot lib out db now params t w ≡ (ok done, after)
    pub created : done.created ≡ true
    pub id : done.snapshot_id ≡ row.id
    pub named : natural_key strptime lookup t ≡ ok (key_columns lookup time)
    pub found : select_existing same_snapshot after.snapshots (key_columns lookup time) ≡ some row
    pub got :
        get_json client dumps loads after.store row.params.processed_object_uri
        ≡ ok result.processed_geojson
    pub features : after.features ≡ w.features
    pub uri : row.params.processed_object_uri ≡ processed_uri_of lib out db result t
    pub table : IsTable same_snapshot same_snapshot-KeyLaw after.snapshots

  pub fetch_and_persist_snapshot-Stores :
      StoreLaw client
      → has_slash bucket ≡ false
      → (now : ℕ) (params lookup : Params) (t : String) (result : SnapshotResult lib lower strftime)
      → (ing : IsIngestion lib out db params t result) → IsRead lib out db result.processed_geojson
      → IsLookup params lookup ing.aoi
      → (w : World lib out db) → IsTable same_snapshot same_snapshot-KeyLaw w.snapshots
      → select_existing same_snapshot w.snapshots (key_columns lookup ing.time) ≡ none
      → (after : World lib out db) × (done : Ingested) × (row : Row SnapshotParams) × Stores now
          params lookup t ing.time result w after done row
  fetch_and_persist_snapshot-Stores law plain now params lookup t result ing reads look w h
        missing =
      let (after, done, row, i) =
        fetch_and_persist_snapshot-Ingests lib out db law plain now params t result ing reads w h in
      let key = key_columns lookup ing.time in
      let stored = stored_params lib out db result t in
      let same = is_key params lookup t result ing look in
      let agree = λ (table : Table SnapshotParams).
        select_existing-agree same_snapshot same_snapshot-KeyLaw table stored key same in
      let (is_stored, new) =
        upsert_returning-fresh same_snapshot same_snapshot-KeyLaw now w.snapshots stored row
          (agree w.snapshots ∙ missing) i.first in
      let twice =
        upsert_returning-Twice same_snapshot same_snapshot-KeyLaw now now w.snapshots stored h in
      let uri : row.params.processed_object_uri ≡ processed_uri_of lib out db result t =
        ap (λ p. p.processed_object_uri) is_stored ∙ stored_uri result t in
      (
        after,
        done,
        row,
        record {
          returned = i.returned;
          created = i.created ∙ new;
          id = i.id;
          named = natural_key_lem params lookup t result ing;
          found =
              sym (agree after.snapshots)
              ∙ ap (λ table. select_existing same_snapshot table stored) i.snapshots
              ∙ twice.stored
              ∙ sym twice.first
              ∙ i.first;
          got = ap (λ u. get_json client dumps loads after.store u) uri ∙ i.object;
          features = i.features;
          uri = uri;
          table = subst (IsTable same_snapshot same_snapshot-KeyLaw) (sym i.snapshots) twice.table;
        },
      )
