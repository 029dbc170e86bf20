-- ===== src/Dags/PublishToPostgis/Agreement.antt =====
-- Publishing what a comparison has persisted.
use gis_vector_map_changes.Prelude.{
  ℕ, ◌+◌, String, List, true, false, some, none, ok, err, Error, arith, ◌≡◌, ◌⊎◌, inl, inr, refl,
  sym, ap, ◌∙◌, subst, has_slash, length, eq_refl,
}
use gis_vector_map_changes.Json.{Json}
use gis_vector_map_changes.Shapely.{Shapely}
use gis_vector_map_changes.Matching.Config.{algorithm_version}
use gis_vector_map_changes.Matching.Changeset.Records.{ChangeRecord}
use gis_vector_map_changes.Matching.Pipeline.{SnapshotRef, ChangesetResult}
use gis_vector_map_changes.Matching.Pipeline.Counts.{number, count_records_correct}
use gis_vector_map_changes.Storage.{get_json}
use gis_vector_map_changes.Db.{Table, Row, select_existing}
use gis_vector_map_changes.Db.Idempotent.{IsTable, upsert_returning-Twice}
use gis_vector_map_changes.Db.Lookup.{same_changeset-KeyLaw}
use gis_vector_map_changes.Db.Kept.{select_existing-agree, upsert_returning-fresh}
use gis_vector_map_changes.Db.Snapshots.{SnapshotLookup, get_snapshot}
use gis_vector_map_changes.Db.Changesets.{ChangesetParams, same_changeset, get_changeset}
use gis_vector_map_changes.Publish.{PostGis}
use gis_vector_map_changes.Publish.Tables.{publish_change_features}
use gis_vector_map_changes.Publish.Changes.Layer.{render_change_layer-publish_change_features}
use gis_vector_map_changes.Dags.{Params, Pair, Outside, World, key_columns, natural_key}
use gis_vector_map_changes.Dags.Ingest.Runs.{StoreLaw, IsRead}
use gis_vector_map_changes.Dags.BuildChangesets.{
  Built, snapshot_ref, fetch, build_and_persist_changeset,
}
use gis_vector_map_changes.Matching.Pipeline.Parts.{build_changeset_result-Parts}
use gis_vector_map_changes.Dags.BuildChangesets.Persisted.{
  counted_params, IsFetched, IsComparison, layer_params, layer_uri,
  build_and_persist_changeset-Compares,
}
use gis_vector_map_changes.Dags.PublishToPostgis.{
  changeset_key, ids_of, find_snapshot, publish_changes, publish_changeset,
}
use gis_vector_map_changes.Api.Changesets.{changed_count}

module _ (lib : Shapely) (out : Outside lib) (db : PostGis lib) where
  open lib use {Float}
  open out use {client, dumps, loads, strptime, aoi_file, bucket, order}

  -- A snapshot that a comparison fetched is found by the publishing task, wherever the table is the same.
  find_snapshot-IsFetched :
      (params : Params) (t : String) (ref : SnapshotRef) (geojson : Json Float)
      (w v : World lib out db)
      → (f : IsFetched lib out db params t w ref geojson) → v.snapshots ≡ w.snapshots
      → find_snapshot lib out db params t v ≡ (ok (some f.found), v)
  unfolding find_snapshot natural_key
  find_snapshot-IsFetched params t ref geojson w v f same =
      let looked : get_snapshot v.snapshots (key_columns params f.time) ≡ some f.found =
        ap (λ s. get_snapshot s (key_columns params f.time)) same ∙ f.looked in
      rw (f.parsed, looked) refl

  get_changeset-found :
      (t : Table ChangesetParams) (key : ChangesetParams) (row : Row ChangesetParams)
      → select_existing same_changeset t key ≡ some row
      → get_changeset t key
        ≡ some
            (record { id = row.id; change_layer_object_uri = row.params.change_layer_object_uri })
  unfolding get_changeset
  get_changeset-found t key row found = rw (get_changeset, found) refl

  ref_id :
      (params : Params) (t : String) (ref : SnapshotRef) (geojson : Json Float)
      (w : World lib out db)
      → (f : IsFetched lib out db params t w ref geojson) → f.found.id ≡ ref.id
  unfolding snapshot_ref
  ref_id params t ref geojson w f = ap (λ r. r.id) f.is_ref

  changed_count-written :
      (a b : ℕ) (uri : String) (records : List (ChangeRecord lib)) (written : ℕ)
      → written + number lib "unchanged" records ≡ length records
      → written ≡ changed_count (counted_params lib a b uri records)
  unfolding changed_count
  changed_count-written a b uri records written h =
      let (_, _, _, total) = count_records_correct lib records in omega (arith, h, total)

  same_key :
      (a b : ℕ) (uri : String) (records : List (ChangeRecord lib))
      → same_changeset (counted_params lib a b uri records) (changeset_key a b algorithm_version)
        ≡ true
  unfolding changeset_key
  same_key a b uri records = ground (arith, eq_refl algorithm_version)

  same_columns :
      (a a' b b' : ℕ) (v v' : String)
      → a ≡ a'
      → b ≡ b'
      → v ≡ v'
      → changeset_key a b v ≡ changeset_key a' b' v'
  same_columns a a' b b' v v' ea eb ev = rw (ea, eb, ev) refl

  -- how publishing ends, by how `publish_change_features` ends
  published :
      (params : Params) (pair : Pair) (v : World lib out db) (found_a found_b : SnapshotLookup)
      (id : ℕ) (uri : String) (layer : Json Float) (n : ℕ)
      → find_snapshot lib out db params pair.requested_time_a v ≡ (ok (some found_a), v)
      → find_snapshot lib out db params pair.requested_time_b v ≡ (ok (some found_b), v)
      → get_changeset v.changesets (changeset_key found_a.id found_b.id params.algorithm_version)
        ≡ some (record { id = id; change_layer_object_uri = uri })
      → get_json client dumps loads v.store uri ≡ ok layer
      → (((publish_change_features lib db
              (ids_of v.changesets)
              v.features
              v.changes
              id
              found_a.id
              found_b.id
              layer).1
            ≡ ok n)
          ⊎ ((e : Error) × ((publish_change_features lib db
                  (ids_of v.changesets)
                  v.features
                  v.changes
                  id
                  found_a.id
                  found_b.id
                  layer).1
                ≡ err e)))
      → (((publish_changeset lib out db params pair v).0
            ≡ ok (record { changeset_id = id; interval = pair; change_records_written = n }))
          ⊎ ((e : Error) × ((publish_changeset lib out db params pair v).0 ≡ err e)))
  unfolding publish_changeset fetch publish_changes
  published params pair v found_a found_b id uri layer n is_a is_b is_changeset read (inl wrote) =
      inl (rw (is_a, is_b, is_changeset, read, wrote) refl)
  published params pair v found_a found_b id uri layer n is_a is_b is_changeset read
        (inr (e, raised)) =
      inr (e, rw (is_a, is_b, is_changeset, read, raised) refl)

  -- Where the store is available, a comparison can be computed, its change layer is read back, the parameters name
  -- the algorithm version of the code and no changeset has this pair and this version yet, the comparison task
  -- returns; then publishing the changeset writes as many rows as the API counts changes in the row of the
  -- changeset, or raises.
  pub publish_changeset-changed_count :
      StoreLaw client
      → has_slash bucket ≡ false
      → (now : ℕ) (params : Params) (pair : Pair) (w : World lib out db)
        (result : ChangesetResult lib)
      → (c : IsComparison lib out db params pair w result)
      → IsRead lib out db result.change_layer_geojson
      → IsTable same_changeset same_changeset-KeyLaw w.changesets
      → params.algorithm_version ≡ algorithm_version
      → select_existing same_changeset w.changesets
          (changeset_key c.snapshot_a.id c.snapshot_b.id algorithm_version)
        ≡ none
      → (after : World lib out db) × (done : Built) × (row : Row ChangesetParams)
        × (build_and_persist_changeset lib out db now params pair w ≡ (ok done, after))
        × (done.changeset_id ≡ row.id)
        × (select_existing same_changeset after.changesets
              (changeset_key c.snapshot_a.id c.snapshot_b.id algorithm_version)
            ≡ some row)
        × (((publish_changeset lib out db params pair after).0
              ≡ ok (record {
                changeset_id = row.id;
                interval = pair;
                change_records_written = changed_count row.params;
              }))
            ⊎ ((e : Error) × ((publish_changeset lib out db params pair after).0 ≡ err e)))
  publish_changeset-changed_count law plain now params pair w result c reads h version missing =
      let (after, done, row, i) =
        build_and_persist_changeset-Compares lib out db law plain now params pair w result c reads
          h in
      let a = c.snapshot_a.id in
      let b = c.snapshot_b.id in
      let key = changeset_key a b algorithm_version in
      let stored = layer_params lib out db params pair c.snapshot_a c.snapshot_b result in
      let agree = λ (t : Table ChangesetParams).
        select_existing-agree same_changeset same_changeset-KeyLaw t stored key
          (same_key a b (layer_uri lib out db params pair) result.records) in
      let (is_stored, new) =
        upsert_returning-fresh same_changeset same_changeset-KeyLaw now w.changesets stored row
          (agree w.changesets ∙ missing) i.first in
      let twice =
        upsert_returning-Twice same_changeset same_changeset-KeyLaw now now w.changesets stored h in
      let found : select_existing same_changeset after.changesets key ≡ some row =
        sym (agree after.changesets)
        ∙ ap (λ t. select_existing same_changeset t stored) i.changesets
        ∙ twice.stored
        ∙ sym twice.first
        ∙ i.first in
      let parts = build_changeset_result-Parts lib out.order _ _ _ _ _ result c.computed in
      let (_, written, _, _, total, ends) =
        render_change_layer-publish_change_features lib parts.fa parts.fb db
          (ids_of after.changesets) after.features result.records result.change_layer_geojson
          parts.rendered after.changes row.id c.fetched_a.found.id c.fetched_b.found.id in
      let count : written ≡ changed_count row.params =
        changed_count-written a b (layer_uri lib out db params pair) result.records written total
        ∙ ap changed_count (sym is_stored) in
      let looked : get_changeset after.changesets
            (changeset_key c.fetched_a.found.id c.fetched_b.found.id params.algorithm_version)
          ≡ some (record {
            id = row.id;
            change_layer_object_uri = row.params.change_layer_object_uri;
          }) =
        ap (get_changeset after.changesets) (
          same_columns c.fetched_a.found.id a c.fetched_b.found.id b params.algorithm_version
            algorithm_version (ref_id _ _ _ _ _ c.fetched_a) (ref_id _ _ _ _ _ c.fetched_b) version)
        ∙ get_changeset-found after.changesets key row found in
      let read : get_json client dumps loads after.store row.params.change_layer_object_uri
          ≡ ok result.change_layer_geojson =
        ap (λ p. get_json client dumps loads after.store p.change_layer_object_uri) is_stored
        ∙ i.object in
      (
        after,
        done,
        row,
        i.returned,
        i.id,
        found,
        subst
            (λ n.
              ((publish_changeset lib out db params pair after).0
                ≡ ok
                    (record { changeset_id = row.id; interval = pair; change_records_written = n }))
              ⊎ ((e : Error) × ((publish_changeset lib out db params pair after).0 ≡ err e)))
            count
            (published params pair after c.fetched_a.found c.fetched_b.found row.id
              row.params.change_layer_object_uri result.change_layer_geojson written
              (find_snapshot-IsFetched _ _ _ _ w after c.fetched_a i.snapshots)
              (find_snapshot-IsFetched _ _ _ _ w after c.fetched_b i.snapshots) looked read ends),
      )
