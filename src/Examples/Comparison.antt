-- ===== src/Examples/Comparison.antt =====
-- The theorem on comparing and publishing, at two small snapshots.
use gis_vector_map_changes.Matching.Features
use gis_vector_map_changes.Matching.Metrics
use gis_vector_map_changes.Matching.Candidates
use gis_vector_map_changes.Matching.Changeset.Records
use gis_vector_map_changes.Matching.Changeset.Components
use gis_vector_map_changes.Matching.Changeset.Build
use gis_vector_map_changes.Matching.Render
use gis_vector_map_changes.Matching.Pipeline
use gis_vector_map_changes.Matching.Crs
use gis_vector_map_changes.Publish
use gis_vector_map_changes.Publish.Tables
use gis_vector_map_changes.Prelude.{
  subst, Result, set_update, lookup, insert, index, sort, place, flat_map, ℕ, String, [], ◌∷◌, some,
  ok, err, Error, arith, ◌≡◌, ◌⊎◌, refl, traverse, before_slash, after_slash, removeprefix, ◌==◌,
  if◌then◌else◌,
}
use gis_vector_map_changes.Json
use gis_vector_map_changes.Json.{Json, obj, str}
use gis_vector_map_changes.Ingestion.Aoi.{load_aoi}
use gis_vector_map_changes.Matching.Crs.{to_metric}
use gis_vector_map_changes.Storage.{get_json}
use gis_vector_map_changes.Matching.Config.{algorithm_version}
use gis_vector_map_changes.Matching.Pipeline.{
  ChangesetResult, build_changeset_result, aoi_boundary_in_metric_crs,
}
use gis_vector_map_changes.Matching.Pipeline.Outcome.{IsComparable, build_changeset_result-IsResult}
use gis_vector_map_changes.Db.{Row, select_in, select_existing}
use gis_vector_map_changes.Db.Idempotent.{IsTable}
use gis_vector_map_changes.Db.Lookup.{same_changeset-KeyLaw}
use gis_vector_map_changes.Db.Snapshots.{SnapshotParams, get_snapshot}
use gis_vector_map_changes.Db.Changesets.{ChangesetParams, same_changeset}
use gis_vector_map_changes.Dags.{Pair, pair_of, Outside, World, parse_instant, key_columns}
use gis_vector_map_changes.Dags.BuildChangesets.{
  fetch_snapshot, Built, snapshot_ref, build_and_persist_changeset,
}
use gis_vector_map_changes.Matching.Pipeline.{validate_comparable}
use gis_vector_map_changes.Dags.BuildChangesets.Comparable.{validate_comparable-fetch_snapshot}
use gis_vector_map_changes.Dags.BuildChangesets.Persisted.{
  IsFetched, IsFetched-fetch_snapshot, IsComparison,
}
use gis_vector_map_changes.Dags.PublishToPostgis.{changeset_key, publish_changeset}
use gis_vector_map_changes.Dags.PublishToPostgis.Agreement.{publish_changeset-changed_count}
use gis_vector_map_changes.Api.Changesets.{changed_count}
use gis_vector_map_changes.Publish.Tables.{publish_change_features, snapshot_feature}
use gis_vector_map_changes.Examples.Cells.{
  Fraction, cells_world, cells_law, cells_mapping, insertion_order,
}
use gis_vector_map_changes.Examples.Snapshots.{instant, lower}
use gis_vector_map_changes.Examples.Buildings.{
  polygon, snapshot_of, older_raws, newer_raws, older, newer, older_loaded, newer_loaded,
}
use gis_vector_map_changes.Examples.Storage.{local, haifa}
use gis_vector_map_changes.Examples.Publish.{mill, cells_db}
use gis_vector_map_changes.Examples.Ingestion.{aoi_file, params, local-StoreLaw}

abbrev outline : Json Fraction
outline = cells_mapping (polygon (1 ∷ 2 ∷ 5 ∷ 6 ∷ 20 ∷ []))

boundary_read :
    aoi_boundary_in_metric_crs cells_world (some outline)
    ≡ ok (some (record { kind = "LineString"; cells = 1 ∷ 2 ∷ 5 ∷ 6 ∷ 20 ∷ [] }))
unfolding aoi_boundary_in_metric_crs Json.index Json.obj_of Json.as_str Json.as_list traverse
    Json.arr_of to_metric
boundary_read = refl

-- the two columns of the table that tell the snapshots apart
abbrev row_at : ℕ → ℕ → String → Row SnapshotParams
row_at id time uri = record {
  id = id;
  time = 5;
  params = record haifa { requested_time = time; processed_object_uri = uri };
}

abbrev key_at : ℕ → SnapshotParams
key_at time = key_columns params time

same_refs : IsComparable (snapshot_ref 1 (key_at 10)) (snapshot_ref 2 (key_at 20))
unfolding snapshot_ref
same_refs = record {
  source = refl;
  layer = refl;
  aoi_id = refl;
  aoi_version = refl;
  source_query_version = refl;
}

abbrev result : ChangesetResult cells_world
result =
    (build_changeset_result-IsResult cells_world cells_law insertion_order
      (snapshot_ref 1 (key_at 10)) (snapshot_ref 2 (key_at 20)) (snapshot_of older_raws)
      (snapshot_of newer_raws) (some outline) older newer _ same_refs older_loaded newer_loaded
      boundary_read).0

result_built :
    build_changeset_result cells_world insertion_order
      (snapshot_ref 1 (key_at 10))
      (snapshot_ref 2 (key_at 20))
      (snapshot_of older_raws)
      (snapshot_of newer_raws)
      (some outline)
    ≡ ok result
result_built =
    (build_changeset_result-IsResult cells_world cells_law insertion_order
      (snapshot_ref 1 (key_at 10)) (snapshot_ref 2 (key_at 20)) (snapshot_of older_raws)
      (snapshot_of newer_raws) (some outline) older newer _ same_refs older_loaded newer_loaded
      boundary_read).2

-- A store whose objects are read back as the two snapshots, and as the change layer.
abbrev services : Outside cells_world
services = record {
  client = local;
  dumps = λ j. "layer";
  loads = λ s.
      if s == "older"
      then ok (snapshot_of older_raws)
      else if s == "newer"
      then ok (snapshot_of newer_raws)
      else ok result.change_layer_geojson;
  strptime = λ s f. if s == "2026-06-01T00:00:00Z" then ok 10 else ok 20;
  strftime = instant;
  lower = lower;
  post = λ endpoint payload. ok (obj Json.end);
  aoi_file = aoi_file outline;
  bucket = "gis";
  order = insertion_order;
}

abbrev ingested : World cells_world services cells_db
ingested = record {
  store =
      record { bucket = "gis"; key = "older.json"; body = "older" }
      ∷ record { bucket = "gis"; key = "newer.json"; body = "newer" }
      ∷ [];
  snapshots = record {
    rows = row_at 1 10 "s3://gis/older.json" ∷ row_at 2 20 "s3://gis/newer.json" ∷ [];
    next_id = 3;
  };
  changesets = record { rows = []; next_id = 1 };
  features =
      snapshot_feature cells_world cells_db 1 (record mill { osm_id = "way/1" })
      ∷ snapshot_feature cells_world cells_db 1 (record mill { osm_id = "way/2" })
      ∷ snapshot_feature cells_world cells_db 1 (record mill { osm_id = "way/9" })
      ∷ snapshot_feature cells_world cells_db 2 (record mill { osm_id = "way/1" })
      ∷ snapshot_feature cells_world cells_db 2 (record mill { osm_id = "way/3" })
      ∷ snapshot_feature cells_world cells_db 2 (record mill { osm_id = "way/4" })
      ∷ [];
  changes = [];
}

abbrev pair : Pair
pair = pair_of "2026-06-01T00:00:00Z" "2026-07-01T00:00:00Z"

older-IsFetched :
    IsFetched cells_world services cells_db params pair.requested_time_a ingested
      (snapshot_ref 1 (key_at 10))
      (snapshot_of older_raws)
unfolding parse_instant get_snapshot select_in get_json before_slash after_slash removeprefix
older-IsFetched = record {
  time = 10;
  found = record { id = 1; processed_object_uri = "s3://gis/older.json" };
  parsed = refl;
  looked = refl;
  read = refl;
  is_ref = refl;
}

newer-IsFetched :
    IsFetched cells_world services cells_db params pair.requested_time_b ingested
      (snapshot_ref 2 (key_at 20))
      (snapshot_of newer_raws)
unfolding parse_instant get_snapshot select_in get_json before_slash after_slash removeprefix
newer-IsFetched = record {
  time = 20;
  found = record { id = 2; processed_object_uri = "s3://gis/newer.json" };
  parsed = refl;
  looked = refl;
  read = refl;
  is_ref = refl;
}

pair-IsComparison : IsComparison cells_world services cells_db params pair ingested result
unfolding load_aoi Json.get_or Json.obj_of Json.as_list Json.arr_of Json.get Json.index Json.as_str
pair-IsComparison = record {
  snapshot_a = snapshot_ref 1 (key_at 10);
  snapshot_b = snapshot_ref 2 (key_at 20);
  geojson_a = snapshot_of older_raws;
  geojson_b = snapshot_of newer_raws;
  aoi = record {
    aoi_id = "haifa";
    aoi_version = "v1";
    geometry = outline;
    properties = obj (Json.obj_of (("aoi_id", str "haifa") ∷ ("aoi_version", str "v1") ∷ []));
  };
  fetched_a = older-IsFetched;
  fetched_b = newer-IsFetched;
  is_aoi = refl;
  same_aoi = refl;
  computed = result_built;
}

no_changesets-IsTable : IsTable same_changeset same_changeset-KeyLaw ingested.changesets
no_changesets-IsTable = record { ids = omega arith; unique = λ p. omega arith }

-- what publishing a result returns in this state
abbrev published_of : Result (ChangesetResult cells_world) → Result ℕ
published_of (ok r) =
    (publish_change_features cells_world cells_db (1 ∷ []) ingested.features [] 1 1 2
      r.change_layer_geojson).1
published_of (err e) = err e

-- The modified, the ambiguous and the removed record are published.
three_published :
    published_of (
      build_changeset_result cells_world insertion_order
        (snapshot_ref 1 (key_at 10))
        (snapshot_ref 2 (key_at 20))
        (snapshot_of older_raws)
        (snapshot_of newer_raws)
        (some outline))
    ≡ ok 3
unfolding Features.load_feature Features.add_feature Features.load_from Features.load_features
    Metrics.changed_tags Metrics.compute_metrics Candidates.generate_candidates
    Records.classification_text Components.link Components.add_row Components.visit Components.walk
    Components.components_from Components.connected_components Build.candidate_sets Build.matched_a
    Build.build_changeset Render.strs Render.render_record Render.collection
    Render.render_change_layer Pipeline.mismatches_in Pipeline.validate_comparable Pipeline.zeros
    Pipeline.count_records Pipeline.aoi_boundary_in_metric_crs Pipeline.build_changeset_result
    Crs.to_metric Crs.to_crs84 Publish.only_metrics Tables.replace_changes
    Tables.publish_change_features Json.find Json.index Json.get Json.get_or Json.as_str
    Json.as_bool Json.as_optional_str Json.items Json.as_list Json.arr_of Json.obj_of
    Json.optional_str Json.as_optional_num Json.as_strs set_update traverse lookup insert index sort
    place flat_map snapshot_ref snapshot_feature
three_published = refl

-- So publishing the changeset of the example below does not raise.
result_published : published_of (ok result) ≡ ok 3
result_published = subst (λ r. published_of r ≡ ok 3) result_built three_published

publish_changeset-changed_count_example :
    (after : World cells_world services cells_db) × (done : Built) × (row : Row ChangesetParams)
    × (build_and_persist_changeset cells_world services cells_db 30 params pair ingested
        ≡ (ok done, after))
    × (done.changeset_id ≡ row.id)
    × (select_existing same_changeset after.changesets (changeset_key 1 2 algorithm_version)
        ≡ some row)
    × (((publish_changeset cells_world services cells_db params pair after).0
          ≡ ok (record {
            changeset_id = row.id;
            interval = pair;
            change_records_written = changed_count row.params;
          }))
        ⊎ ((e : Error) × ((publish_changeset cells_world services cells_db params pair after).0
              ≡ err e)))
unfolding select_in snapshot_ref pair-IsComparison
publish_changeset-changed_count_example =
    publish_changeset-changed_count cells_world services cells_db local-StoreLaw refl 30 params pair
      ingested result pair-IsComparison refl no_changesets-IsTable refl refl

older_fetched :
    fetch_snapshot cells_world services cells_db params pair.requested_time_a ingested
    ≡ (ok (snapshot_ref 1 (key_at 10), snapshot_of older_raws), ingested)
older_fetched = IsFetched-fetch_snapshot cells_world services cells_db _ _ _ _ _ older-IsFetched

newer_fetched :
    fetch_snapshot cells_world services cells_db params pair.requested_time_b ingested
    ≡ (ok (snapshot_ref 2 (key_at 20), snapshot_of newer_raws), ingested)
newer_fetched = IsFetched-fetch_snapshot cells_world services cells_db _ _ _ _ _ newer-IsFetched

validate_comparable-fetch_snapshot_example :
    validate_comparable (snapshot_ref 1 (key_at 10)) (snapshot_ref 2 (key_at 20)) ≡ ok tt
validate_comparable-fetch_snapshot_example =
    validate_comparable-fetch_snapshot cells_world services cells_db params pair.requested_time_a
      pair.requested_time_b ingested ingested ingested ingested (snapshot_ref 1 (key_at 10))
      (snapshot_ref 2 (key_at 20)) (snapshot_of older_raws) (snapshot_of newer_raws) older_fetched
      newer_fetched
