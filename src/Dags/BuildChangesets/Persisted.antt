-- ===== src/Dags/BuildChangesets/Persisted.antt =====
-- What a comparison task leaves in the object store and in the table of changesets.
use gis_vector_map_changes.Prelude.{
  ℕ, String, true, false, some, index_of_lookup, lookup, ok, ◌==◌, ◌&&◌, ◌≡◌, refl, sym, ◌∙◌,
  has_slash, ok_injective, List, subst,
}
use gis_vector_map_changes.Json.{Json}
use gis_vector_map_changes.Shapely.{Shapely}
use gis_vector_map_changes.Ingestion.Aoi.{Aoi, load_aoi}
use gis_vector_map_changes.Matching.Config.{algorithm_version}
use gis_vector_map_changes.Matching.Changeset.Records.{
  Classification, ChangeRecord, classification_text,
}
use gis_vector_map_changes.Matching.Pipeline.{SnapshotRef, ChangesetResult, build_changeset_result}
use gis_vector_map_changes.Matching.Pipeline.Parts.{Parts, build_changeset_result-Parts}
use gis_vector_map_changes.Matching.Pipeline.Counts.{number, count_records_correct}
use gis_vector_map_changes.Storage.{uri_of, get_json, changeset_object_key}
use gis_vector_map_changes.Storage.RoundTrip.{get_json-put_json}
use gis_vector_map_changes.Db.{Row, upsert_returning}
use gis_vector_map_changes.Db.Idempotent.{IsTable, upsert_returning-Twice}
use gis_vector_map_changes.Db.Lookup.{same_changeset-KeyLaw}
use gis_vector_map_changes.Db.Snapshots.{SnapshotLookup, get_snapshot}
use gis_vector_map_changes.Db.Changesets.{
  ChangesetParams, same_changeset, upsert_changeset, changeset_row,
}
use gis_vector_map_changes.Publish.{PostGis}
use gis_vector_map_changes.Dags.{
  Params, Pair, Outside, World, key_columns, parse_instant, natural_key,
}
use gis_vector_map_changes.Dags.Ingest.{put}
use gis_vector_map_changes.Dags.Ingest.Runs.{StoreLaw, IsRead, put-uri_of}
use gis_vector_map_changes.Dags.BuildChangesets.{
  Built, snapshot_ref, fetch, fetch_snapshot, changeset_params, save_changeset,
  build_and_persist_changeset,
}

-- the counts of a row, as the classifications of records
abbrev pub counted_params :
    (lib : Shapely) → ℕ → ℕ → String → List (ChangeRecord lib) → ChangesetParams
counted_params lib a b uri records = record {
  snapshot_a_id = a;
  snapshot_b_id = b;
  algorithm_version = algorithm_version;
  change_layer_object_uri = uri;
  unchanged_count = number lib "unchanged" records;
  modified_geometry_count = number lib "modified_geometry" records;
  modified_attributes_count = number lib "modified_attributes" records;
  modified_geometry_and_attributes_count = number lib "modified_geometry_and_attributes" records;
  added_count = number lib "added" records;
  removed_count = number lib "removed" records;
  ambiguous_count = number lib "ambiguous" records;
}

module _ (lib : Shapely) (out : Outside lib) (db : PostGis lib) where
  open lib use {Float}
  open out use {client, dumps, loads, strptime, aoi_file, bucket, order}

  -- The snapshot `ref` is found in the state `w`, and its GeoJSON can be read.
  pub record IsFetched (params : Params) (t : String) (w : World lib out db) (ref : SnapshotRef)
      (geojson : Json Float) : Type 0 where
    pub time : ℕ
    pub found : SnapshotLookup
    pub parsed : parse_instant strptime t ≡ ok time
    pub looked : get_snapshot w.snapshots (key_columns params time) ≡ some found
    pub read : get_json client dumps loads w.store found.processed_object_uri ≡ ok geojson
    pub is_ref : snapshot_ref found.id (key_columns params time) ≡ ref

  pub IsFetched-fetch_snapshot :
      (params : Params) (t : String) (w : World lib out db) (ref : SnapshotRef)
      (geojson : Json Float)
      → IsFetched params t w ref geojson
      → fetch_snapshot lib out db params t w ≡ (ok (ref, geojson), w)
  unfolding fetch_snapshot fetch natural_key
  IsFetched-fetch_snapshot params t w ref geojson f = rw (f.parsed, f.looked, f.read, f.is_ref) refl

  -- `result` is the changeset that the task computes in the state `w`.
  pub record IsComparison (params : Params) (pair : Pair) (w : World lib out db)
      (result : ChangesetResult lib) : Type 0 where
    pub snapshot_a : SnapshotRef
    pub snapshot_b : SnapshotRef
    pub geojson_a : Json Float
    pub geojson_b : Json Float
    pub aoi : Aoi Float
    pub fetched_a : IsFetched params pair.requested_time_a w snapshot_a geojson_a
    pub fetched_b : IsFetched params pair.requested_time_b w snapshot_b geojson_b
    pub is_aoi : load_aoi aoi_file ≡ ok aoi
    pub same_aoi : (aoi.aoi_id == params.aoi_id && aoi.aoi_version == params.aoi_version) ≡ true
    pub computed :
        build_changeset_result lib order snapshot_a snapshot_b geojson_a geojson_b
          (some aoi.geometry)
        ≡ ok result

  changeset_params-counted :
      (a b : ℕ) (result : ChangesetResult lib) (uri : String) (w : World lib out db)
      → Parts lib result
      → changeset_params lib out db a b result uri w
        ≡ (ok (counted_params lib a b uri result.records), w)
  unfolding changeset_params classification_text
  changeset_params-counted a b result uri w p =
      let (counts, counted, found, _) = count_records_correct lib result.records in
      let same : counts ≡ result.counts = ok_injective (sym counted ∙ p.counted) in
      let counted_as = λ (c : Classification).
        index_of_lookup (classification_text c) result.counts
          (number lib (classification_text c) result.records)
          (subst
            (λ d.
              lookup (classification_text c) d
              ≡ some (number lib (classification_text c) result.records))
            same (found c)) in
      rw
        (
          counted_as Classification.unchanged,
          counted_as Classification.modified_geometry,
          counted_as Classification.modified_attributes,
          counted_as Classification.modified_geometry_and_attributes,
          counted_as Classification.added,
          counted_as Classification.removed,
          counted_as Classification.ambiguous,
          p.version,
        )
        refl

  save_changeset-row :
      (now : ℕ) (params : ChangesetParams) (w : World lib out db)
      → IsTable same_changeset same_changeset-KeyLaw w.changesets
      → (r : Row ChangesetParams) × ((upsert_returning same_changeset now w.changesets params).1.0
          ≡ some r)
        × (save_changeset lib out db now params w ≡ (
          ok (record {
            id = r.id;
            created_time = r.time;
            created = (upsert_returning same_changeset now w.changesets params).1.1;
          }),
          record w { changesets = (upsert_returning same_changeset now w.changesets params).0 },
        ))
  unfolding save_changeset upsert_changeset changeset_row
  save_changeset-row now params w h =
      let twice =
        upsert_returning-Twice same_changeset same_changeset-KeyLaw now now w.changesets params h in
      (twice.row, twice.first, rw twice.first refl)

  -- the URI of the change layer, and the row
  abbrev pub layer_uri : Params → Pair → String
  layer_uri params pair = uri_of bucket (
      changeset_object_key params.source params.layer params.aoi_id params.aoi_version
        algorithm_version pair.requested_time_a pair.requested_time_b)

  abbrev pub layer_params :
      Params → Pair → SnapshotRef → SnapshotRef → ChangesetResult lib → ChangesetParams
  layer_params params pair a b result =
      counted_params lib a.id b.id (layer_uri params pair) result.records

  -- What the task has done.
  pub record Compares (now : ℕ) (params : Params) (pair : Pair) (w after : World lib out db)
      (result : ChangesetResult lib) (a b : SnapshotRef) (done : Built) (row : Row ChangesetParams)
      : Type 0 where
    pub returned : build_and_persist_changeset lib out db now params pair w ≡ (ok done, after)
    pub id : done.changeset_id ≡ row.id
    pub created :
        done.created
        ≡ (upsert_returning same_changeset now w.changesets
            (layer_params params pair a b result)).1.1
    pub first :
        (upsert_returning same_changeset now w.changesets (layer_params params pair a b result)).1.0
        ≡ some row
    pub changesets :
        after.changesets
        ≡ (upsert_returning same_changeset now w.changesets (layer_params params pair a b result)).0
    pub snapshots : after.snapshots ≡ w.snapshots
    pub object :
        get_json client dumps loads after.store (layer_uri params pair)
        ≡ ok result.change_layer_geojson

  pub build_and_persist_changeset-Compares :
      StoreLaw client
      → has_slash bucket ≡ false
      → (now : ℕ) (params : Params) (pair : Pair) (w : World lib out db)
        (result : ChangesetResult lib)
      → (c : IsComparison params pair w result) → IsRead lib out db result.change_layer_geojson
      → IsTable same_changeset same_changeset-KeyLaw w.changesets
      → (after : World lib out db) × (done : Built) × (row : Row ChangesetParams) × Compares now
          params pair w after result c.snapshot_a c.snapshot_b done row
  unfolding build_and_persist_changeset
  build_and_persist_changeset-Compares law plain now params pair w result c reads h =
      let parts = build_changeset_result-Parts lib order _ _ _ _ _ result c.computed in
      let key =
        changeset_object_key params.source params.layer params.aoi_id params.aoi_version
          algorithm_version pair.requested_time_a pair.requested_time_b in
      let (store, json, stored) = put-uri_of lib out db law key result.change_layer_geojson w in
      let w1 : World lib out db = record w { store = store } in
      let at_version =
        subst
          (λ v.
            put lib out db
              (changeset_object_key params.source params.layer params.aoi_id params.aoi_version v
                pair.requested_time_a pair.requested_time_b)
              result.change_layer_geojson w
            ≡ (ok (uri_of bucket key), w1))
          (sym parts.version) stored in
      let p = layer_params params pair c.snapshot_a c.snapshot_b result in
      let counted =
        changeset_params-counted c.snapshot_a.id c.snapshot_b.id result (uri_of bucket key) w1
          parts in
      let (row, first, saved) = save_changeset-row now p w1 h in
      (
        record w1 { changesets = (upsert_returning same_changeset now w.changesets p).0 },
        record {
          changeset_id = row.id;
          pair = pair;
          counts = result.counts;
          created = (upsert_returning same_changeset now w.changesets p).1.1;
        },
        row,
        record {
          returned =
              rw
                (
                  IsFetched-fetch_snapshot _ _ _ _ _ c.fetched_a,
                  IsFetched-fetch_snapshot _ _ _ _ _ c.fetched_b,
                  c.is_aoi,
                  c.same_aoi,
                  c.computed,
                  at_version,
                  counted,
                  saved,
                )
                refl;
          id = refl;
          created = refl;
          first = first;
          changesets = refl;
          snapshots = refl;
          object =
              get_json-put_json client dumps loads law.client_law w.store store bucket key
                (uri_of bucket key) result.change_layer_geojson plain reads json;
        },
      )
