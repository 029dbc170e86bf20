-- ===== src/Examples/Publish.antt =====
-- The theorems on publishing, at small tables.
use gis_vector_map_changes.Prelude.{
  ℕ, ◌+◌, String, List, [], ◌∷◌, true, none, some, ok, err, Error, db_error, All2, index, traverse,
  ◌≡◌, ◌⊎◌, refl, if◌then◌else◌, ◌==◌,
}
use gis_vector_map_changes.Json
use gis_vector_map_changes.Json.{Json, obj, arr, str, nil}
use gis_vector_map_changes.Ingestion.Validate.{validate_and_repair}
use gis_vector_map_changes.Ingestion.OhsomeClient.{aware}
use gis_vector_map_changes.Ingestion.Snapshot.{normal_feature, select_features_valid_at}
use gis_vector_map_changes.Ingestion.Snapshot.Selected.{select_features_valid_at-Selects}
use gis_vector_map_changes.Ingestion.Snapshot.Normal.{IsSnapshot}
use gis_vector_map_changes.Matching.Crs.{to_crs84}
use gis_vector_map_changes.Matching.Changeset.Records.{
  Classification, ChangeRecord, classification_text,
}
use gis_vector_map_changes.Matching.Render.{
  render_record, collection, feature_of, render_change_layer,
}
use gis_vector_map_changes.Matching.Pipeline.Counts.{number}
use gis_vector_map_changes.Publish.{PostGis, StagedFeature}
use gis_vector_map_changes.Publish.Tables.{
  SnapshotFeature, publish_snapshot_features, publish_change_features, snapshot_feature,
  all_different,
}
use gis_vector_map_changes.Publish.Features.{
  Publishes, publish_snapshot_features-Publishes, publish_snapshot_features_again,
}
use gis_vector_map_changes.Publish.Features.Snapshots.{
  Made, HasTextName, all_polygonal, raw_osm_id, not_polygonal,
  build_snapshot-publish_snapshot_features,
}
use gis_vector_map_changes.Publish.Changes.{
  PublishesChanges, publish_change_features-PublishesChanges, publish_change_features_again,
}
use gis_vector_map_changes.Publish.Changes.Layer.{
  changed_records, render_change_layer-publish_change_features,
}
use gis_vector_map_changes.Examples.Cells.{Fraction, cells_world, cells_mapping_law}
use gis_vector_map_changes.Examples.Snapshots.{
  bowtie, raw_feature, instant, lower, invalid_raw, response, normal, snapshot, invalid_Normalized,
}
use gis_vector_map_changes.Examples.Buildings.{polygon, older, newer}
use gis_vector_map_changes.Examples.Matching.{split_record}

abbrev pub cells_db : PostGis cells_world
cells_db = record {
  multi_polygon = λ g. record g { kind = "MultiPolygon" };
  wkb_hex = λ g. g.kind;
  Geom = String;
  from_hex = λ s. s;
  to_3857 = λ s. s;
  union_rows = λ g gs. g;
  dumps = λ j. "{}";
}

-- A row that another snapshot has published.
abbrev pub mill : StagedFeature
mill = record {
  osm_id = "way/2";
  osm_type = "way";
  building = some "house";
  category = some "residential";
  name = none;
  raw_tags = "{}";
  original_valid = true;
  repair_method = none;
  geom_hex = "MultiPolygon";
}

abbrev published : List (SnapshotFeature String)
published = snapshot_feature cells_world cells_db 3 mill ∷ []

publish_snapshot_features-Publishes_example :
    Publishes cells_world cells_db (3 ∷ 4 ∷ []) published 4 snapshot.processed_geojson (
      publish_snapshot_features cells_world cells_db
        (3 ∷ 4 ∷ [])
        published
        4
        snapshot.processed_geojson)
publish_snapshot_features-Publishes_example =
    publish_snapshot_features-Publishes cells_world cells_db (3 ∷ 4 ∷ []) published 4
      snapshot.processed_geojson

one_written :
    (publish_snapshot_features cells_world cells_db
      (3 ∷ 4 ∷ [])
      published
      4
      snapshot.processed_geojson).1
    ≡ ok 1
unfolding publish_snapshot_features Json.get_or Json.find Json.obj_of Json.as_list Json.arr_of
    traverse Json.index Json.as_str Json.get Json.as_optional_str Json.as_bool normal_feature
    Json.optional_str validate_and_repair
one_written = refl

-- A snapshot that is not stored cannot be published.
not_stored :
    (publish_snapshot_features cells_world cells_db
      (3 ∷ [])
      published
      4
      snapshot.processed_geojson).1
    ≡ err (db_error "constraint violated")
unfolding publish_snapshot_features Json.get_or Json.find Json.obj_of Json.as_list Json.arr_of
    traverse Json.index Json.as_str Json.get Json.as_optional_str Json.as_bool normal_feature
    Json.optional_str validate_and_repair
not_stored = refl

publish_snapshot_features_again_example :
    publish_snapshot_features cells_world cells_db
      (3 ∷ 4 ∷ [])
      (publish_snapshot_features cells_world cells_db
        (3 ∷ 4 ∷ [])
        published
        4
        snapshot.processed_geojson).0
      4
      snapshot.processed_geojson
    ≡ (
      (publish_snapshot_features cells_world cells_db
          (3 ∷ 4 ∷ [])
          published
          4
          snapshot.processed_geojson).0,
      ok 1,
    )
publish_snapshot_features_again_example =
    publish_snapshot_features_again cells_world cells_db (3 ∷ 4 ∷ []) published 4
      snapshot.processed_geojson 1 one_written

abbrev later_raw : Json Fraction
later_raw = raw_feature "way/5" "2020-01-01T00:00:01Z" bowtie

-- what ingestion makes of the response
abbrev pub made : List (Made cells_world)
made = (normal, validate_and_repair cells_world bowtie) ∷ []

selected :
    select_features_valid_at cells_world lower instant (invalid_raw ∷ later_raw ∷ []) (aware 0)
    ≡ ok (invalid_raw ∷ [])
unfolding select_features_valid_at Json.get_or Json.obj_of Json.get
selected = refl

is_listed :
    Json.get_or response "features" (arr nil)
    ≡ ok (arr (Json.arr_of (invalid_raw ∷ later_raw ∷ [])))
unfolding Json.get_or Json.find Json.obj_of
is_listed = refl

is_list :
    Json.as_list (arr (Json.arr_of (invalid_raw ∷ later_raw ∷ [])))
    ≡ ok (invalid_raw ∷ later_raw ∷ [])
unfolding Json.as_list Json.arr_of
is_list = refl

pub snapshot-IsSnapshot :
    IsSnapshot cells_world lower instant response (aware 0) snapshot (invalid_raw ∷ []) made
unfolding validate_and_repair
snapshot-IsSnapshot = record {
  listed = arr (Json.arr_of (invalid_raw ∷ later_raw ∷ []));
  raws = invalid_raw ∷ later_raw ∷ [];
  got = is_listed;
  is_list = is_list;
  target =
      (select_features_valid_at-Selects cells_world lower instant (invalid_raw ∷ later_raw ∷ [])
        (invalid_raw ∷ []) (aware 0) selected).0;
  formatted =
      (select_features_valid_at-Selects cells_world lower instant (invalid_raw ∷ later_raw ∷ [])
        (invalid_raw ∷ []) (aware 0) selected).1;
  chosen =
      (select_features_valid_at-Selects cells_world lower instant (invalid_raw ∷ later_raw ∷ [])
        (invalid_raw ∷ []) (aware 0) selected).2;
  tells = (invalid_Normalized, tt);
  processed = refl;
  total = refl;
  invalid = refl;
  repaired = refl;
}

pub made-HasTextName : HasTextName cells_world normal
unfolding Json.index Json.get Json.find Json.obj_of Json.as_optional_str normal_feature
made-HasTextName = (some "Mill", refl)

build_snapshot-publish_snapshot_features_example :
    (ids : List String) × All2 (λ raw id. raw_osm_id cells_world raw ≡ ok id) (invalid_raw ∷ []) ids
    × ((publish_snapshot_features cells_world cells_db
          (3 ∷ 4 ∷ [])
          published
          4
          snapshot.processed_geojson).1
        ≡ (if all_polygonal cells_world made
            then if all_different (λ a b. a == b) ids
              then ok 1
              else err (db_error "constraint violated")
            else not_polygonal))
unfolding all_different
build_snapshot-publish_snapshot_features_example =
    build_snapshot-publish_snapshot_features cells_world cells_db lower instant cells_mapping_law
      response (aware 0) snapshot (invalid_raw ∷ []) made snapshot-IsSnapshot (made-HasTextName, tt)
      (3 ∷ 4 ∷ []) published 4 refl refl

-- A change layer with one record, of the change of "way/2" into two features.
abbrev layer : Json Fraction
layer = collection cells_world (feature_of cells_world (polygon (5 ∷ 6 ∷ [])) split_record ∷ [])

abbrev both : List (SnapshotFeature String)
both =
    snapshot_feature cells_world cells_db 3 mill
    ∷ snapshot_feature cells_world cells_db 4 (record mill { osm_id = "way/3" })
    ∷ []

publish_change_features-PublishesChanges_example :
    PublishesChanges cells_world cells_db
      (1 ∷ [])
      both
      []
      1
      3
      4
      layer
      (publish_change_features cells_world cells_db (1 ∷ []) both [] 1 3 4 layer)
publish_change_features-PublishesChanges_example =
    publish_change_features-PublishesChanges cells_world cells_db (1 ∷ []) both [] 1 3 4 layer

change_written :
    (publish_change_features cells_world cells_db (1 ∷ []) both [] 1 3 4 layer).1 ≡ ok 1
unfolding publish_change_features Json.get_or collection Json.obj_of Json.as_list Json.arr_of
    Json.index feature_of snapshot_feature traverse classification_text Json.as_str Json.get
    Json.as_optional_str Json.optional_str Json.as_optional_num Json.as_strs Json.as_bool to_crs84
change_written = refl

publish_change_features_again_example :
    publish_change_features cells_world cells_db
      (1 ∷ [])
      both
      (publish_change_features cells_world cells_db (1 ∷ []) both [] 1 3 4 layer).0
      1
      3
      4
      layer
    ≡ ((publish_change_features cells_world cells_db (1 ∷ []) both [] 1 3 4 layer).0, ok 1)
publish_change_features_again_example =
    publish_change_features_again cells_world cells_db (1 ∷ []) both [] 1 3 4 layer 1 change_written

-- a record of "way/1", which has not changed
abbrev same_record : ChangeRecord cells_world
same_record = record split_record {
  classification = Classification.unchanged;
  osm_ids_a = "way/1" ∷ [];
  osm_ids_b = "way/1" ∷ [];
  classification_reason = "same_id_match_unchanged";
}

abbrev two_records : List (ChangeRecord cells_world)
two_records = same_record ∷ split_record ∷ []

abbrev two_layer : Json Fraction
two_layer = collection cells_world (
    feature_of cells_world (polygon (1 ∷ 2 ∷ [])) same_record
    ∷ feature_of cells_world (record { kind = "MultiPolygon"; cells = 5 ∷ 6 ∷ [] }) split_record
    ∷ [])

rendered : render_change_layer cells_world two_records older newer ≡ ok two_layer
unfolding render_change_layer traverse render_record index
rendered = refl

render_change_layer-publish_change_features_example :
    (changed : Json Fraction) × (written : ℕ) × (render_change_layer cells_world
        (changed_records cells_world older newer two_records)
        older
        newer
      ≡ ok changed)
    × (publish_change_features cells_world cells_db (1 ∷ []) both [] 1 3 4 two_layer
        ≡ publish_change_features cells_world cells_db (1 ∷ []) both [] 1 3 4 changed)
    × (written + number cells_world "unchanged" two_records ≡ 2)
    × (((publish_change_features cells_world cells_db (1 ∷ []) both [] 1 3 4 two_layer).1
          ≡ ok written)
        ⊎ ((e : Error) × ((publish_change_features cells_world cells_db
                (1 ∷ [])
                both
                []
                1
                3
                4
                two_layer).1
              ≡ err e)))
render_change_layer-publish_change_features_example =
    render_change_layer-publish_change_features cells_world older newer cells_db (1 ∷ []) both
      two_records two_layer rendered [] 1 3 4
