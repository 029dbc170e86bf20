-- ===== src/Matching/Changeset/Build.antt =====
-- `build_changeset` of src/matching/changeset.py, stage by stage.
pub mod Rows
pub mod Resolution
pub mod Counts
pub mod Edges
pub mod Groups
pub mod Stages
pub mod Partition
use gis_vector_map_changes.Prelude.{
  String, List, [], ◌∷◌, ◌++◌, foldl, Bool, true, false, not, ◌&&◌, Option, none, some, Dict, keys,
  index, keep, keep_keys, contains, HashOrder, set_update, sort, text_le, compare_texts,
  first_difference, is_le, Result, ok, err, key_error, traverse, flat_map, ◌>>=◌, ◌==◌,
  if◌then◌else◌,
}
use gis_vector_map_changes.Shapely.{Shapely}
use gis_vector_map_changes.Matching.Config.{t_cross_id_match}
use gis_vector_map_changes.Matching.Features.{LoadedFeature}
use gis_vector_map_changes.Matching.Metrics.{MatchMetrics, compute_metrics}
use gis_vector_map_changes.Matching.Candidates.{generate_candidates}
use gis_vector_map_changes.Matching.Changeset.Components.{
  Group, neighbour_set, connected_components,
}
use gis_vector_map_changes.Matching.Changeset.Records.{
  ChangeRecord, PairMetrics, removed, added, classify_matched, ambiguous_record, added_or_removed,
}

-- `{a_id: set(b_ids) for a_id, b_ids in candidates.items()}`
unfoldable pub candidate_sets : Dict (List String) → Dict (List String)
candidate_sets [] = []
candidate_sets ((a_id, b_ids) ∷ d) = (a_id, set_update [] b_ids) ∷ candidate_sets d

-- `matched_a` and `matched_b` after the loop over the groups
unfoldable pub matched_a : List Group → List String
matched_a = foldl (λ s g. set_update s g.a_ids) []

unfoldable pub matched_b : List Group → List String
matched_b = foldl (λ s g. set_update s g.b_ids) []

module _ (lib : Shapely) where
  open lib use {Geometry, float_ge}

  -- `pair_metrics[(a_id, b_id)]`
  unfoldable pub metrics_of : String → String → List (PairMetrics lib) → Result (MatchMetrics lib)
  metrics_of a_id b_id [] = err (key_error a_id)
  metrics_of a_id b_id (p ∷ pairs) =
      if p.osm_id_a == a_id && p.osm_id_b == b_id then ok p.metrics else metrics_of a_id b_id pairs

  -- the key of the final sort, `(r.osm_ids_a, r.osm_ids_b)`
  abbrev pub record_le : ChangeRecord lib → ChangeRecord lib → Bool
  record_le r s = is_le (
      first_difference (compare_texts r.osm_ids_a s.osm_ids_a)
        (compare_texts r.osm_ids_b s.osm_ids_b))

  module _ (features_a features_b : Dict (LoadedFeature lib)) where
    -- `set(features_a) & set(features_b)`
    unfoldable pub shared_ids : List String
    shared_ids = keep (contains (keys features_b)) (keys features_a)

    unfoldable pub only_in_a : Dict (LoadedFeature lib)
    unfolding shared_ids
    only_in_a = keep_keys (λ k. not (contains shared_ids k)) features_a

    unfoldable pub only_in_b : Dict (LoadedFeature lib)
    unfolding shared_ids
    only_in_b = keep_keys (λ k. not (contains shared_ids k)) features_b

    -- Stage 1, for one shared osm_id
    unfoldable pub match_by_id : Option Geometry → String → Result (ChangeRecord lib)
    unfolding classify_matched
    match_by_id aoi_boundary osm_id = do
      a ← index features_a osm_id
      b ← index features_b osm_id
      ok (classify_matched lib osm_id osm_id "osm_id" (compute_metrics lib a b) a b aoi_boundary)

  -- What the loops after Stage 1 share: the features that are left, and the AOI's boundary.
  module _ (only_in_a only_in_b : Dict (LoadedFeature lib)) (aoi_boundary : Option Geometry) where
    -- one item of the comprehension for `pair_metrics`
    unfoldable pub pair_of : String → String → Result (PairMetrics lib)
    pair_of a_id b_id = do
      a ← index only_in_a a_id
      b ← index only_in_b b_id
      ok (record { osm_id_a = a_id; osm_id_b = b_id; metrics = compute_metrics lib a b })

    -- the items with one `a_id`
    unfoldable pub pairs_with :
        Dict (List String) → List String → String → Result (List (PairMetrics lib))
    unfolding pair_of
    pairs_with sets sorted_b a_id =
        traverse (pair_of a_id) (keep (contains (neighbour_set sets a_id)) sorted_b)

    -- Stage 4: the branches on the numbers of osm_ids
    unfoldable pub resolve :
        List String
        → List String
        → List (PairMetrics lib)
        → List (LoadedFeature lib)
        → Result (ChangeRecord lib)
    unfolding metrics_of classify_matched ambiguous_record
    resolve (a_id ∷ []) (b_id ∷ []) pair_metrics feats = do
      metrics ← metrics_of a_id b_id pair_metrics
      a ← index only_in_a a_id
      b ← index only_in_b b_id
      ok (
          if float_ge metrics.iou (t_cross_id_match lib)
          then classify_matched lib a_id b_id "geometry" metrics a b aoi_boundary
          else ambiguous_record lib (a_id ∷ []) (b_id ∷ []) pair_metrics "partial_overlap" feats
              aoi_boundary)
    resolve (a_id ∷ []) b_ids pair_metrics feats =
        ok
          (ambiguous_record lib (a_id ∷ []) b_ids pair_metrics "split_candidate" feats aoi_boundary)
    resolve a_ids (b_id ∷ []) pair_metrics feats =
        ok
          (ambiguous_record lib a_ids (b_id ∷ []) pair_metrics "merge_candidate" feats aoi_boundary)
    resolve a_ids b_ids pair_metrics feats =
        ok (ambiguous_record lib a_ids b_ids pair_metrics "complex_cluster" feats aoi_boundary)

    -- one round of the loop over the groups
    unfoldable pub resolve_group : Dict (List String) → Group → Result (ChangeRecord lib)
    unfolding pairs_with resolve
    resolve_group sets g = do
      let sorted_a = sort text_le g.a_ids
      let sorted_b = sort text_le g.b_ids
      rows ← traverse (pairs_with sets sorted_b) sorted_a
      feats_a ← traverse (index only_in_a) sorted_a
      feats_b ← traverse (index only_in_b) sorted_b
      resolve g.a_ids g.b_ids (flat_map (λ row. row) rows) (feats_a ++ feats_b)

    -- one round of the loop over what is left of the older snapshot
    unfoldable pub removed_record : String → Result (ChangeRecord lib)
    unfolding added_or_removed
    removed_record a_id = do
      a ← index only_in_a a_id
      ok (added_or_removed lib removed a aoi_boundary)

    -- one round of the loop over what is left of the newer snapshot
    unfoldable pub added_record : String → Result (ChangeRecord lib)
    unfolding added_or_removed
    added_record b_id = do b ← index only_in_b b_id; ok (added_or_removed lib added b aoi_boundary)

  module _ (order : HashOrder) (features_a features_b : Dict (LoadedFeature lib))
      (aoi_boundary : Option Geometry) where
    open order use {iterate}

    unfoldable pub build_changeset : Result (List (ChangeRecord lib))
    unfolding match_by_id resolve_group removed_record added_record matched_a matched_b only_in_a
        only_in_b
    build_changeset = do
      by_id ←
          traverse (match_by_id features_a features_b aoi_boundary)
            (iterate (shared_ids features_a features_b))
      let left_a = only_in_a features_a features_b
      let left_b = only_in_b features_a features_b
      candidates ← generate_candidates lib left_a left_b
      groups ← connected_components order candidates
      resolved ←
          traverse (resolve_group left_a left_b aoi_boundary (candidate_sets candidates)) groups
      gone ←
          traverse (removed_record left_a left_b aoi_boundary)
            (iterate (keep (λ k. not (contains (matched_a groups) k)) (keys left_a)))
      fresh ←
          traverse (added_record left_a left_b aoi_boundary)
            (iterate (keep (λ k. not (contains (matched_b groups) k)) (keys left_b)))
      ok (sort record_le (by_id ++ (resolved ++ (gone ++ fresh))))
