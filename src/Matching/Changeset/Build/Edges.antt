-- ===== src/Matching/Changeset/Build/Edges.antt =====
-- The pairs of a component of the candidate graph, and what the lookups for it find.
use gis_vector_map_changes.Prelude.{
  String, List, [], ◌∷◌, true, false, Option, Dict, keys, index, keep, contains, In, IsDistinct, ok,
  traverse, arith, ◌≡◌, inl, inr, eq_iff, eq_refl, count-keep, index_of_In, traverse-returns,
  All-of_In,
}
use gis_vector_map_changes.Shapely.{Shapely}
use gis_vector_map_changes.Matching.Features.{LoadedFeature}
use gis_vector_map_changes.Matching.Metrics.{compute_metrics}
use gis_vector_map_changes.Matching.Candidates.{is_pair}
use gis_vector_map_changes.Matching.Changeset.Components.{neighbour_set, neighbours}
use gis_vector_map_changes.Matching.Changeset.Components.Graph.{adjacent-neighbours}
use gis_vector_map_changes.Matching.Changeset.Components.Correct.{IsComponent}
use gis_vector_map_changes.Matching.Changeset.Records.{PairMetrics}
use gis_vector_map_changes.Matching.Changeset.Build.{candidate_sets, pair_of, pairs_with}
use gis_vector_map_changes.Matching.Changeset.Build.Rows.{pair-key, neighbour_of}

-- What is known where the loop over the groups begins.
pub record IsLeft (lib : Shapely) (da db : Dict (LoadedFeature lib))
    (candidates : Dict (List String)) : Type 0 where
  pub distinct : IsDistinct (keys candidates)
  pub in_a : (x : String) → In x (keys candidates) → In x (keys da)
  pub in_b : (a b : String) → is_pair candidates a b ≡ true → In b (keys db)
  pub disjoint : (x : String) → In x (keys da) → contains (keys db) x ≡ false

module _ (lib : Shapely) (da db : Dict (LoadedFeature lib)) (aoi_boundary : Option lib.Geometry)
    (candidates : Dict (List String)) (left : IsLeft lib da db candidates) where
  pub indexes :
      (d : Dict (LoadedFeature lib)) (xs : List String)
      → ((x : String) → In x xs → In x (keys d))
      → (fs : List (LoadedFeature lib)) × (traverse (index d) xs ≡ ok fs)
  indexes d xs inside =
      let (fs, run, _) =
        traverse-returns (index d) (λ x f. Unit) xs
          (All-of_In _ xs
            (λ x m. let (f, found) = index_of_In x d (inside x m) in (f, found, tt))) in
      (fs, run)

  pub pairs_with-returns :
      (a : String) (bs : List String)
      → In a (keys da)
      → ((b : String) → In b bs → In b (keys db))
      → (ps : List (PairMetrics lib)) × (pairs_with lib da db aoi_boundary
            (candidate_sets candidates)
            bs
            a
          ≡ ok ps)
  unfolding pairs_with
  pairs_with-returns a bs at_a inside =
      let (fa, found_a) = index_of_In a da at_a in
      let chosen = contains (neighbour_set (candidate_sets candidates) a) in
      let kept = keep chosen bs in
      let (ps, run, _) =
        traverse-returns (pair_of lib da db aoi_boundary a) (λ x p. Unit) kept
          (All-of_In _ kept (λ b m.
            let (fb, found_b) =
              index_of_In b db (inside b (ground (arith, count-keep chosen b bs))) in
            (
              record { osm_id_a = a; osm_id_b = b; metrics = compute_metrics lib fa fb },
              rw (found_a, found_b),
              tt,
            ))) in
      (ps, run)

  pair-sides :
      (p q : String)
      → is_pair candidates p q ≡ true
      → In p (keys candidates) × (contains (keys candidates) q ≡ false)
  pair-sides p q pair =
      let at_q = left.in_b p q pair in
      (pair-key p q candidates pair, ground (arith, left.in_a q, left.disjoint q))

  module _ (a b : String)
      (h : IsComponent
        (neighbours candidates)
        (keys candidates)
        (record { a_ids = a ∷ []; b_ids = b ∷ [] })) where
    -- An edge within the component joins its two osm_ids.
    edge-pair :
        (u v : String)
        → In u (a ∷ b ∷ [])
        → In v (a ∷ b ∷ [])
        → In v (neighbour_set (neighbours candidates) u)
        → is_pair candidates a b ≡ true
    edge-pair u v at_u at_v around = ground (
      arith,
      adjacent-neighbours u v candidates,
      pair-sides u v,
      pair-sides v u,
      h.a_side_only a,
      h.b_side_only b,
      eq_iff u a,
      eq_iff u b,
      eq_iff v a,
      eq_iff v b,
      eq_refl a,
      eq_refl b,
    )

    pub one_pair : is_pair candidates a b ≡ true
    one_pair = elim (neighbour_of _ _ _ h a (ground (arith, eq_refl a))) [
      | inr (u, at_u, around) ↦ edge-pair u a at_u (ground (arith, eq_refl a)) around
      | inl root_a ↦ elim (neighbour_of _ _ _ h b (ground (arith, eq_refl b))) [
        | inr (u, at_u, around) ↦ edge-pair u b at_u (ground (arith, eq_refl b)) around
        | inl root_b ↦ absurd (ground (arith, h.distinct a, root_a, root_b, eq_iff a b, eq_refl a))
      ]
    ]
