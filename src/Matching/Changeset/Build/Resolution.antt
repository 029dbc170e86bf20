-- ===== src/Matching/Changeset/Build/Resolution.antt =====
-- Stage 4 of `build_changeset`, on a component that is not one to one.
use gis_vector_map_changes.Prelude.{
  ℕ, String, List, [], ◌∷◌, Option, none, Dict, ok, false, ◌&&◌, Bool-cases, inl, inr, ◌≡◌, refl,
  count, count-sort, length, eqb, if◌then◌else◌, arith,
}
use gis_vector_map_changes.Shapely.{Shapely}
use gis_vector_map_changes.Matching.Features.{LoadedFeature}
use gis_vector_map_changes.Matching.Changeset.Records.{
  Classification, ChangeRecord, PairMetrics, ambiguous_record,
}
use gis_vector_map_changes.Matching.Changeset.Build.{resolve}
use gis_vector_map_changes.Matching.Changeset.Build.Rows.{is_one, reason_of}

-- The reason of a split, of a merge and of a cluster, by the numbers of the osm_ids.
abbrev pub reason_by_number : ℕ → ℕ → String
reason_by_number a b =
    if eqb a 1 then "split_candidate" else if eqb b 1 then "merge_candidate" else "complex_cluster"

is_one-length : (xs : List String) → is_one xs ≡ eqb (length xs) 1
is_one-length [] = refl
is_one-length (x ∷ []) = refl
is_one-length (x ∷ y ∷ xs) = ground arith

not_both : (m n : ℕ) → (¬ ((m ≡ 1) × (n ≡ 1))) → eqb m 1 && eqb n 1 ≡ false
not_both m n h = elim (Bool-cases (eqb m 1)) [
  | inr other ↦ rw other refl
  | inl one ↦ elim (Bool-cases (eqb n 1)) [
    | inr other ↦ ground arith
    | inl both ↦ absurd (h (ground arith, ground arith))
  ]
]

module _ (lib : Shapely) where
  -- The record decides nothing, and holds all that is known of the component.
  pub record IsUndecided (a_ids b_ids : List String) (pairs : List (PairMetrics lib))
      (r : ChangeRecord lib) : Type 0 where
    pub classification : r.classification ≡ Classification.ambiguous
    pub match_method : r.match_method ≡ none
    pub match_score : r.match_score ≡ none
    pub ids_a : (x : String) → count x r.osm_ids_a ≡ count x a_ids
    pub ids_b : (x : String) → count x r.osm_ids_b ≡ count x b_ids
    pub candidates : r.pair_metrics ≡ pairs
    pub reason : r.classification_reason ≡ reason_by_number (length a_ids) (length b_ids)

  ambiguous_record-IsUndecided :
      (a_ids b_ids : List String) (pairs : List (PairMetrics lib)) (reason : String)
      (feats : List (LoadedFeature lib)) (aoi_boundary : Option lib.Geometry)
      → reason ≡ reason_by_number (length a_ids) (length b_ids)
      → IsUndecided a_ids b_ids pairs
          (ambiguous_record lib a_ids b_ids pairs reason feats aoi_boundary)
  unfolding ambiguous_record
  ambiguous_record-IsUndecided a_ids b_ids pairs reason feats aoi_boundary is_reason = record {
    classification = refl;
    match_method = refl;
    match_score = refl;
    ids_a = λ x. count-sort x a_ids;
    ids_b = λ x. count-sort x b_ids;
    candidates = refl;
    reason = is_reason;
  }

  pub resolve-other :
      (da db : Dict (LoadedFeature lib)) (aoi_boundary : Option lib.Geometry)
      (a_ids b_ids : List String) (pairs : List (PairMetrics lib))
      (feats : List (LoadedFeature lib))
      → is_one a_ids && is_one b_ids ≡ false
      → resolve lib da db aoi_boundary a_ids b_ids pairs feats
        ≡ ok (ambiguous_record lib a_ids b_ids pairs (reason_of a_ids b_ids) feats aoi_boundary)
  unfolding resolve
  resolve-other da db boundary [] [] pairs feats h = refl
  resolve-other da db boundary [] (b ∷ []) pairs feats h = refl
  resolve-other da db boundary [] (b ∷ c ∷ bs) pairs feats h = refl
  resolve-other da db boundary (a ∷ []) [] pairs feats h = refl
  resolve-other da db boundary (a ∷ []) (b ∷ []) pairs feats h = cc
  resolve-other da db boundary (a ∷ []) (b ∷ c ∷ bs) pairs feats h = refl
  resolve-other da db boundary (a ∷ d ∷ rest) [] pairs feats h = refl
  resolve-other da db boundary (a ∷ d ∷ rest) (b ∷ []) pairs feats h = refl
  resolve-other da db boundary (a ∷ d ∷ rest) (b ∷ c ∷ bs) pairs feats h = refl

  -- A component that is not one to one is never decided: where not both sides have one osm_id, `resolve`
  -- raises nothing and returns a record that is ambiguous, has no match method and no score, holds the osm_ids of both sides
  -- and the pairs, and names a split where only the older side has one osm_id, a merge where only the newer side has one, and
  -- else a complex cluster.
  pub resolve-ambiguous_record :
      (da db : Dict (LoadedFeature lib)) (aoi_boundary : Option lib.Geometry)
      (a_ids b_ids : List String) (pairs : List (PairMetrics lib))
      (feats : List (LoadedFeature lib))
      → (¬ ((length a_ids ≡ 1) × (length b_ids ≡ 1)))
      → (r : ChangeRecord lib) × (resolve lib da db aoi_boundary a_ids b_ids pairs feats ≡ ok r)
        × IsUndecided a_ids b_ids pairs r
  resolve-ambiguous_record da db aoi_boundary a_ids b_ids pairs feats h =
      let one_a = is_one-length a_ids in
      let one_b = is_one-length b_ids in
      let other : is_one a_ids && is_one b_ids ≡ false = rw (one_a, one_b) (not_both _ _ h) in
      (
        _,
        resolve-other da db aoi_boundary a_ids b_ids pairs feats other,
        ambiguous_record-IsUndecided a_ids b_ids pairs (reason_of a_ids b_ids) feats aoi_boundary
            (rw (one_a, one_b) refl),
      )
