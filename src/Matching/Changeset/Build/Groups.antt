-- ===== src/Matching/Changeset/Build/Groups.antt =====
-- A component of the candidate graph is resolved to one record, and no lookup of that fails.
use gis_vector_map_changes.Prelude.{
  String, List, [], ◌∷◌, ◌++◌, true, false, ◌&&◌, Option, none, Dict, keys, index, count, In, sort,
  text_le, Result, ok, traverse, flat_map, arith, ◌≡◌, refl, inl, inr, Bool-cases, eq_refl,
  if◌then◌else◌, count-sort, count-append, index_of_In, traverse-returns, All-of_In,
}
use gis_vector_map_changes.Shapely.{Shapely}
use gis_vector_map_changes.Matching.Config.{t_cross_id_match}
use gis_vector_map_changes.Matching.Features.{LoadedFeature}
use gis_vector_map_changes.Matching.Metrics.{compute_metrics}
use gis_vector_map_changes.Matching.Candidates.{is_pair}
use gis_vector_map_changes.Matching.Changeset.Components.{Group, ids, neighbours}
use gis_vector_map_changes.Matching.Changeset.Components.Graph.{is_node}
use gis_vector_map_changes.Matching.Changeset.Components.Correct.{IsComponent}
use gis_vector_map_changes.Matching.Changeset.Records.{
  ChangeRecord, PairMetrics, ambiguous, classify_matched, ambiguous_record,
}
use gis_vector_map_changes.Matching.Changeset.Build.{candidate_sets, pairs_with, resolve_group}
use gis_vector_map_changes.Matching.Changeset.Build.Resolution.{resolve-other}
use gis_vector_map_changes.Matching.Changeset.Build.Rows.{
  contains-candidate_sets, row_of, is_one, reason_of,
}
use gis_vector_map_changes.Matching.Changeset.Build.Edges.{
  IsLeft, indexes, pairs_with-returns, one_pair,
}

module _ (lib : Shapely) (da db : Dict (LoadedFeature lib)) (aoi_boundary : Option lib.Geometry)
    (candidates : Dict (List String)) (left : IsLeft lib da db candidates) where
  -- The record of a component of one osm_id on each side.
  unfoldable pub pair_record :
      String → String → LoadedFeature lib → LoadedFeature lib → ChangeRecord lib
  pair_record a b fa fb =
      let metrics = compute_metrics lib fa fb in
      if lib.float_ge metrics.iou (t_cross_id_match lib)
      then classify_matched lib a b "geometry" metrics fa fb aoi_boundary
      else (ambiguous_record lib (a ∷ []) (b ∷ [])
          (record { osm_id_a = a; osm_id_b = b; metrics = metrics } ∷ []) "partial_overlap"
          (fa ∷ fb ∷ []) aoi_boundary)

  abbrev resolved : Group → Result (ChangeRecord lib)
  resolved = resolve_group lib da db aoi_boundary (candidate_sets candidates)

  resolved-pair :
      (a b : String) (fa fb : LoadedFeature lib)
      → index da a ≡ ok fa
      → index db b ≡ ok fb
      → is_pair candidates a b ≡ true
      → resolved (record { a_ids = a ∷ []; b_ids = b ∷ [] }) ≡ ok (pair_record a b fa fb)
  unfolding resolve_group sort traverse flat_map pair_record
  resolved-pair a b fa fb at_a at_b pair =
      rw (
        contains-candidate_sets candidates a b left.distinct,
        pair,
        at_a,
        at_b,
        eq_refl a,
        eq_refl b,
      )

  -- What the loop over the groups makes of a component.
  pub record Resolves (g : Group) (r : ChangeRecord lib) : Type 0 where
    pub ids_a : (x : String) → count x r.osm_ids_a ≡ count x g.a_ids
    pub ids_b : (x : String) → count x r.osm_ids_b ≡ count x g.b_ids
    -- a component that is not one to one is left ambiguous, with no score and every id in it
    pub unresolved :
        is_one g.a_ids && is_one g.b_ids ≡ false
        → (r.classification ≡ ambiguous)
          × (r.match_method ≡ none)
          × (r.match_score ≡ none)
          × (r.classification_reason ≡ reason_of g.a_ids g.b_ids)

  abbrev Resolved : Group → Type 0
  Resolved g = (r : ChangeRecord lib) × (resolved g ≡ ok r) × Resolves g r

  -- The osm_ids of a component of the candidates are those of features that are left.
  ids-left :
      (g : Group)
      → IsComponent (neighbours candidates) (keys candidates) g
      → ((x : String) → In x (ids g) → is_node candidates x ≡ true)
      → ((x : String) → In x g.a_ids → In x (keys da))
        × ((x : String) → In x g.b_ids → In x (keys db))
  ids-left g h nodes = (
    λ x m. left.in_a x (h.a_side_only x m),
    λ x m.
        let (a, pair) =
          row_of candidates x (nodes x (omega (arith, count-append x g.a_ids g.b_ids)))
            (h.b_side_only x m) in
        left.in_b a x pair,
  )

  pair_record-Resolves :
      (a b : String) (fa fb : LoadedFeature lib)
      → Resolves (record { a_ids = a ∷ []; b_ids = b ∷ [] }) (pair_record a b fa fb)
  unfolding pair_record classify_matched ambiguous_record sort
  pair_record-Resolves a b fa fb =
      elim (Bool-cases (lib.float_ge (compute_metrics lib fa fb).iou (t_cross_id_match lib))) [
        | inl enough ↦ record {
          ids_a = λ x. rw enough;
          ids_b = λ x. rw enough;
          unresolved = λ e. cc;
        }
        | inr too_low ↦ record {
          ids_a = λ x. rw too_low;
          ids_b = λ x. rw too_low;
          unresolved = λ e. cc;
        }
      ]

  module _ (a_ids b_ids : List String)
      (h : IsComponent
        (neighbours candidates)
        (keys candidates)
        (record { a_ids = a_ids; b_ids = b_ids }))
      (nodes : (x : String) → In x (a_ids ++ b_ids) → is_node candidates x ≡ true) where
    Resolved-other :
        is_one a_ids && is_one b_ids ≡ false → Resolved (record { a_ids = a_ids; b_ids = b_ids })
    unfolding resolve_group
    Resolved-other other =
        let (in_da, in_db) = ids-left (record { a_ids = a_ids; b_ids = b_ids }) h nodes in
        let sorted_a = sort text_le a_ids in
        let sorted_b = sort text_le b_ids in
        let inside_a =
          λ (x : String) (m : In x sorted_a). in_da x (omega (arith, count-sort x a_ids)) in
        let inside_b =
          λ (x : String) (m : In x sorted_b). in_db x (omega (arith, count-sort x b_ids)) in
        let (rows, run_rows, _) =
          traverse-returns (pairs_with lib da db aoi_boundary (candidate_sets candidates) sorted_b)
            (λ x ps. Unit) sorted_a
            (All-of_In _ sorted_a (λ x m.
              let (ps, run) =
                pairs_with-returns lib da db aoi_boundary candidates left x sorted_b (inside_a x m)
                  inside_b in
              (ps, run, tt))) in
        let (feats_a, run_a) =
          indexes lib da db aoi_boundary candidates left da sorted_a inside_a in
        let (feats_b, run_b) =
          indexes lib da db aoi_boundary candidates left db sorted_b inside_b in
        let pairs = flat_map (λ (row : List (PairMetrics lib)). row) rows in
        (
          ambiguous_record lib a_ids b_ids pairs (reason_of a_ids b_ids) (feats_a ++ feats_b)
              aoi_boundary,
          rw (run_rows, run_a, run_b)
              (resolve-other lib da db aoi_boundary a_ids b_ids pairs (feats_a ++ feats_b) other),
          unfold ambiguous_record in
              record {
                ids_a = λ x. count-sort x a_ids;
                ids_b = λ x. count-sort x b_ids;
                unresolved = λ e. (refl, refl, refl, refl);
              },
        )

  -- Every component of the candidates is resolved, with no exception.
  pub resolve_group-returns :
      (a_ids b_ids : List String)
      → IsComponent
          (neighbours candidates)
          (keys candidates)
          (record { a_ids = a_ids; b_ids = b_ids })
      → ((x : String) → In x (a_ids ++ b_ids) → is_node candidates x ≡ true)
      → Resolved (record { a_ids = a_ids; b_ids = b_ids })
  resolve_group-returns (a ∷ []) (b ∷ []) h nodes =
      let (in_da, in_db) = ids-left _ h nodes in
      let (fa, found_a) = index_of_In a da (in_da a (ground (arith, eq_refl a))) in
      let (fb, found_b) = index_of_In b db (in_db b (ground (arith, eq_refl b))) in
      (
        pair_record a b fa fb,
        resolved-pair a b fa fb found_a found_b
            (one_pair lib da db aoi_boundary candidates left a b h),
        pair_record-Resolves a b fa fb,
      )
  resolve_group-returns a_ids b_ids h nodes = Resolved-other a_ids b_ids h nodes refl
