-- ===== src/Dags/BuildChangesets/Comparable.antt =====
-- The two snapshots of a comparison task.
use gis_vector_map_changes.Prelude.{
  ℕ, String, ok, ◌≡◌, sym, ap, ◌∙◌, >>=-eq-ok, ok_injective, value_error,
}
use gis_vector_map_changes.Json.{Json}
use gis_vector_map_changes.Shapely.{Shapely}
use gis_vector_map_changes.Db.Snapshots.{SnapshotParams, SnapshotLookup, get_snapshot}
use gis_vector_map_changes.Matching.Pipeline.{SnapshotRef, validate_comparable}
use gis_vector_map_changes.Matching.Pipeline.Outcome.{validate_comparable-IsComparable}
use gis_vector_map_changes.Publish.{PostGis}
use gis_vector_map_changes.Dags.{Params, Outside, World, parse_instant, key_columns, natural_key}
use gis_vector_map_changes.Dags.Task.{task_parts, lift, or_raise}
use gis_vector_map_changes.Dags.BuildChangesets.{snapshot_ref, fetch, fetch_snapshot}

module _ (lib : Shapely) (out : Outside lib) (db : PostGis lib) where
  open out use {strptime}

  natural_key-key_columns :
      (params : Params) (t : String) (key : SnapshotParams)
      → natural_key strptime params t ≡ ok key
      → (time : ℕ) × (key_columns params time ≡ key)
  unfolding natural_key
  natural_key-key_columns params t key run =
      let (time, _, made) = >>=-eq-ok (parse_instant strptime t) _ run in (time, ok_injective made)

  -- Whatever `fetch_snapshot` returns is a reference that is made of the parameters.
  fetch_snapshot-snapshot_ref :
      (params : Params) (t : String) (w after : World lib out db) (ref : SnapshotRef)
      (geojson : Json lib.Float)
      → fetch_snapshot lib out db params t w ≡ (ok (ref, geojson), after)
      → (id : ℕ) × (time : ℕ) × (snapshot_ref id (key_columns params time) ≡ ref)
  unfolding fetch_snapshot
  fetch_snapshot-snapshot_ref params t w after ref geojson run =
      let (key, w1, named, run1) =
        task_parts {A = SnapshotParams} (lift (natural_key strptime params t)) _ w after run in
      let (lookup, w2, _, run2) =
        task_parts {A = SnapshotLookup}
          (λ u.
            or_raise (get_snapshot u.snapshots key) (value_error "no ingested snapshot found") u)
          _ w1 after run1 in
      let (read, w3, _, run3) =
        task_parts {A = Json lib.Float} (fetch lib out db lookup.processed_object_uri) _ w2 after
          run2 in
      let (time, is_key) = natural_key-key_columns params t key (ap (λ p. p.0) named) in
      (
        lookup.id,
        time,
        ap (snapshot_ref lookup.id) is_key ∙ ap (λ p. p.0) (ok_injective (ap (λ p. p.0) run3)),
      )

  -- Whatever two snapshots `fetch_snapshot` returns with the same parameters, at any two instants and in any two states,
  -- they pass `validate_comparable`.
  pub validate_comparable-fetch_snapshot :
      (params : Params) (time_a time_b : String) (w after v end : World lib out db)
      (a b : SnapshotRef) (ja jb : Json lib.Float)
      → fetch_snapshot lib out db params time_a w ≡ (ok (a, ja), after)
      → fetch_snapshot lib out db params time_b v ≡ (ok (b, jb), end)
      → validate_comparable a b ≡ ok tt
  unfolding snapshot_ref
  validate_comparable-fetch_snapshot params time_a time_b w after v end a b ja jb run_a run_b =
      let (id_a, at_a, ref_a) = fetch_snapshot-snapshot_ref params time_a w after a ja run_a in
      let (id_b, at_b, ref_b) = fetch_snapshot-snapshot_ref params time_b v end b jb run_b in
      (validate_comparable-IsComparable a b).0.1 (record {
        source = sym (ap (λ r. r.source) ref_a) ∙ ap (λ r. r.source) ref_b;
        layer = sym (ap (λ r. r.layer) ref_a) ∙ ap (λ r. r.layer) ref_b;
        aoi_id = sym (ap (λ r. r.aoi_id) ref_a) ∙ ap (λ r. r.aoi_id) ref_b;
        aoi_version = sym (ap (λ r. r.aoi_version) ref_a) ∙ ap (λ r. r.aoi_version) ref_b;
        source_query_version =
            sym (ap (λ r. r.source_query_version) ref_a) ∙ ap (λ r. r.source_query_version) ref_b;
      })
