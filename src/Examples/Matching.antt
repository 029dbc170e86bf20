-- ===== src/Examples/Matching.antt =====
-- The theorems on matching, at two small snapshots.
use gis_vector_map_changes.Prelude.{
  ℕ, String, List, [], ◌∷◌, false, ◌||◌, none, some, Dict, lookup, IsDistinct, ok, err, value_error,
  length, All2, ◌≡◌, refl, ◌+◌, ◌↔◌, insert, index, set_update, set_add, keys, In, arith,
}
use gis_vector_map_changes.Json
use gis_vector_map_changes.Json.{Json, obj, arr, str, null, nil}
use gis_vector_map_changes.Matching.Features.{load_features}
use gis_vector_map_changes.Matching.Features.Loading.{
  IsKeyed, osm_ids, load_features-IsKeyed, load_features_lem,
}
use gis_vector_map_changes.Matching.Candidates.{generate_candidates, is_pair}
use gis_vector_map_changes.Matching.Candidates.Exact.{IsCandidates, generate_candidates-exact}
use gis_vector_map_changes.Matching.Changeset.Components.{
  Group, connected_components, neighbours, link, visit, Walk, walk, walk_from,
}
use gis_vector_map_changes.Matching.Changeset.Components.Graph.{
  neighbours-IsGraph, adjacent, adjacent-neighbours,
}
use gis_vector_map_changes.Matching.Changeset.Components.Correct.{
  IsComponents, IsSeen, connected_components_correct,
}
use gis_vector_map_changes.Matching.Changeset.Components.Termination.{walk_from-walk}
use gis_vector_map_changes.Matching.Changeset.Records.{
  Classification, ChangeRecord, classifications, classification_text,
}
use gis_vector_map_changes.Matching.Changeset.Records.Classify.{Meaning, classification_of-Meaning}
use gis_vector_map_changes.Matching.Changeset.Build.{build_changeset, resolve}
use gis_vector_map_changes.Matching.Changeset.Build.Resolution.{
  IsUndecided, resolve-ambiguous_record,
}
use gis_vector_map_changes.Matching.Changeset.Build.Partition.{
  IsPartition, build_changeset-IsPartition,
}
use gis_vector_map_changes.Matching.Render.{collection, render_change_layer}
use gis_vector_map_changes.Matching.Render.Total.{Renders, render_change_layer-returns}
use gis_vector_map_changes.Matching.Pipeline.{
  SnapshotRef, validate_comparable, zeros, count_records, ChangesetResult, build_changeset_result,
  aoi_boundary_in_metric_crs,
}
use gis_vector_map_changes.Matching.Pipeline.Counts.{number, count_records_correct}
use gis_vector_map_changes.Matching.Pipeline.Outcome.{
  IsComparable, IsResult, validate_comparable-IsComparable, build_changeset_result-IsResult,
}
use gis_vector_map_changes.Examples.Cells.{Fraction, cells_world, cells_law, insertion_order}
use gis_vector_map_changes.Examples.Buildings.{
  snapshot_of, older_raws, newer_raws, loaded, older_features, older, newer, older_loads,
  got_features, listed, older-IsDistinct, older_loaded, newer_loaded, older-IsKeyed, newer-IsKeyed,
}

load_features-IsKeyed_example : IsKeyed cells_world newer
load_features-IsKeyed_example =
    load_features-IsKeyed cells_world (snapshot_of newer_raws) newer newer_loaded

load_features_lem_example :
    ((load_features cells_world (snapshot_of older_raws) ≡ ok older)
      ↔ IsDistinct (osm_ids cells_world older_features))
    × ((load_features cells_world (snapshot_of older_raws)
          ≡ err (value_error "duplicate osm_id in snapshot"))
        ↔ (¬ IsDistinct (osm_ids cells_world older_features)))
load_features_lem_example =
    load_features_lem cells_world (snapshot_of older_raws) (arr (Json.arr_of older_raws)) older_raws
      older_features (got_features older_raws) (listed older_raws) older_loads

generate_candidates-exact_example :
    (candidates : Dict (List String)) × (generate_candidates cells_world older newer
      ≡ ok candidates)
    × IsCandidates cells_world cells_law older newer candidates
generate_candidates-exact_example =
    generate_candidates-exact cells_world cells_law older newer older-IsDistinct

-- one feature of the older snapshot with two of the newer one, and a pair
abbrev two_components : Dict (List String)
two_components = ("way/2", "way/3" ∷ "way/4" ∷ []) ∷ ("way/7", "way/8" ∷ []) ∷ []

two_components_found :
    connected_components insertion_order two_components
    ≡ ok (
        record { a_ids = "way/2" ∷ []; b_ids = "way/4" ∷ "way/3" ∷ [] }
        ∷ record { a_ids = "way/7" ∷ []; b_ids = "way/8" ∷ [] }
        ∷ [])
unfolding connected_components link insert index visit set_update
two_components_found = refl

connected_components_correct_example :
    (groups : List Group) × (connected_components insertion_order two_components ≡ ok groups)
    × IsComponents two_components groups
connected_components_correct_example = connected_components_correct insertion_order two_components

nothing-IsSeen :
    IsSeen insertion_order (neighbours two_components) (neighbours-IsGraph two_components) []
nothing-IsSeen = record {
  distinct = λ x. omega arith;
  nodes = λ x m. absurd (omega arith);
  closed = λ u v m a. absurd (omega arith);
}

start-In : In "way/2" (keys (neighbours two_components))
unfolding neighbours link insert
start-In = omega arith

walk_from-walk_example :
    (t : Walk) × (walk_from insertion_order (neighbours two_components) [] "way/2" ≡ ok t)
    × (t.queue ≡ [])
    × (walk insertion_order
          (neighbours two_components)
          (length (keys (neighbours two_components)) + 7)
          (record { seen = set_add [] "way/2"; members = []; queue = "way/2" ∷ [] })
        ≡ ok t)
walk_from-walk_example =
    walk_from-walk insertion_order two_components [] "way/2" 7 refl start-In nothing-IsSeen

classification_of-Meaning_example :
    Meaning cells_world
      (loaded "way/1" (some "Mill") (1 ∷ 2 ∷ []))
      (loaded "way/1" (some "Old Mill") (1 ∷ 2 ∷ []))
classification_of-Meaning_example =
    classification_of-Meaning cells_world (loaded "way/1" (some "Mill") (1 ∷ 2 ∷ []))
      (loaded "way/1" (some "Old Mill") (1 ∷ 2 ∷ []))

build_changeset-IsPartition_example :
    (records : List (ChangeRecord cells_world)) × (build_changeset cells_world insertion_order older
        newer none
      ≡ ok records)
    × IsPartition cells_world older newer records
build_changeset-IsPartition_example =
    build_changeset-IsPartition cells_world cells_law insertion_order older newer none older-IsKeyed
      newer-IsKeyed

abbrev records_found : List (ChangeRecord cells_world)
records_found =
    (build_changeset-IsPartition cells_world cells_law insertion_order older newer none
      older-IsKeyed newer-IsKeyed).0

IsPartition-found : IsPartition cells_world older newer records_found
IsPartition-found =
    (build_changeset-IsPartition cells_world cells_law insertion_order older newer none
      older-IsKeyed newer-IsKeyed).2

render_change_layer-returns_example :
    (features : List (Json Fraction)) × (render_change_layer cells_world records_found older newer
      ≡ ok (collection cells_world features))
    × All2 (Renders cells_world older newer) records_found features
render_change_layer-returns_example =
    render_change_layer-returns cells_world older newer records_found IsPartition-found

-- the change of "way/2" into two features
abbrev pub split_record : ChangeRecord cells_world
split_record = record {
  classification = Classification.ambiguous;
  match_method = none;
  match_score = none;
  osm_ids_a = "way/2" ∷ [];
  osm_ids_b = "way/3" ∷ "way/4" ∷ [];
  classification_reason = "split_candidate";
  pair_metrics = [];
  involves_repaired_geometry = false;
  touches_aoi_boundary = false;
}

count_records_correct_example :
    (counts : Dict ℕ) × (count_records cells_world (zeros classifications) (split_record ∷ [])
      ≡ ok counts)
    × ((c : Classification)
        → lookup (classification_text c) counts
          ≡ some (number cells_world (classification_text c) (split_record ∷ [])))
    × (number cells_world "unchanged" (split_record ∷ [])
          + number cells_world "modified_geometry" (split_record ∷ [])
          + number cells_world "modified_attributes" (split_record ∷ [])
          + number cells_world "modified_geometry_and_attributes" (split_record ∷ [])
          + number cells_world "added" (split_record ∷ [])
          + number cells_world "removed" (split_record ∷ [])
          + number cells_world "ambiguous" (split_record ∷ [])
        ≡ length (split_record ∷ []))
count_records_correct_example = count_records_correct cells_world (split_record ∷ [])

abbrev pub ref : ℕ → ℕ → SnapshotRef
ref id time = record {
  id = id;
  source = "openstreetmap-ohsome";
  layer = "building";
  aoi_id = "haifa";
  aoi_version = "v1";
  source_query_version = "v2";
  requested_time = time;
}

refs-IsComparable : IsComparable (ref 1 10) (ref 2 20)
refs-IsComparable = record {
  source = refl;
  layer = refl;
  aoi_id = refl;
  aoi_version = refl;
  source_query_version = refl;
}

validate_comparable-IsComparable_example :
    ((validate_comparable (ref 1 10) (ref 2 20) ≡ ok tt) ↔ IsComparable (ref 1 10) (ref 2 20))
    × ((validate_comparable (ref 1 10) (ref 2 20)
          ≡ err (value_error "snapshots are not comparable"))
        ↔ (¬ IsComparable (ref 1 10) (ref 2 20)))
validate_comparable-IsComparable_example = validate_comparable-IsComparable (ref 1 10) (ref 2 20)

no_boundary : aoi_boundary_in_metric_crs cells_world none ≡ ok none
unfolding aoi_boundary_in_metric_crs
no_boundary = refl

build_changeset_result-IsResult_example :
    (r : ChangesetResult cells_world) × (layer : List (Json Fraction)) × (build_changeset_result
        cells_world insertion_order
        (ref 1 10)
        (ref 2 20)
        (snapshot_of older_raws)
        (snapshot_of newer_raws)
        none
      ≡ ok r)
    × IsResult cells_world cells_law older newer r layer
build_changeset_result-IsResult_example =
    build_changeset_result-IsResult cells_world cells_law insertion_order (ref 1 10) (ref 2 20)
      (snapshot_of older_raws) (snapshot_of newer_raws) none older newer none refs-IsComparable
      older_loaded newer_loaded no_boundary

adjacent-neighbours_example :
    adjacent (neighbours two_components) "way/4" "way/2"
    ≡ (is_pair two_components "way/4" "way/2" || is_pair two_components "way/2" "way/4")
adjacent-neighbours_example = adjacent-neighbours "way/4" "way/2" two_components

resolve-ambiguous_record_example :
    (r : ChangeRecord cells_world) × (resolve cells_world older newer none
        ("way/2" ∷ [])
        ("way/3" ∷ "way/4" ∷ [])
        []
        []
      ≡ ok r)
    × IsUndecided cells_world ("way/2" ∷ []) ("way/3" ∷ "way/4" ∷ []) [] r
resolve-ambiguous_record_example =
    resolve-ambiguous_record cells_world older newer none ("way/2" ∷ []) ("way/3" ∷ "way/4" ∷ []) []
      [] (λ one. omega (arith, one.1))
