-- ===== src/Publish/Different.antt =====
-- When the natural key of `snapshot_features` stays unique.
use gis_vector_map_changes.Prelude.{
  ℕ, String, List, [], ◌∷◌, ◌++◌, map, Bool, true, false, not, any, keep, eqb, ◌==◌, arith, ◌≡◌,
  refl, All, Bool-cases, inl, inr, if◌then◌else◌,
}
use gis_vector_map_changes.Shapely.{Shapely}
use gis_vector_map_changes.Publish.{PostGis, StagedFeature}
use gis_vector_map_changes.Publish.Tables.{
  SnapshotFeature, all_different, same_feature, snapshot_feature,
}

module _ {A : Type 0} (p : A → Bool) where
  any-keep : (q : A → Bool) (xs : List A) → any q xs ≡ false → any q (keep p xs) ≡ false
  any-keep q [] h = refl
  any-keep q (x ∷ xs) h = ground (arith, any-keep q xs)

  any-append : (xs ys : List A) → any p (xs ++ ys) ≡ (if any p xs then true else any p ys)
  any-append [] ys = refl
  any-append (x ∷ xs) ys = ground (arith, any-append xs ys)

module _ {A : Type 0} (same : A → A → Bool) where
  pub all_different-keep :
      (p : A → Bool) (xs : List A)
      → all_different same xs ≡ true
      → all_different same (keep p xs) ≡ true
  unfolding all_different
  all_different-keep p [] h = refl
  all_different-keep p (x ∷ xs) h = ground (arith, any-keep p (same x) xs, all_different-keep p xs)

  pub all_different-append :
      (xs ys : List A)
      → all_different same xs ≡ true
      → All (λ x. any (same x) ys ≡ false) xs
      → all_different same (xs ++ ys) ≡ all_different same ys
  unfolding all_different
  all_different-append [] ys h new = refl
  all_different-append (x ∷ xs) ys h new =
      ground
        (arith, any-append (same x) xs ys, new.0, all_different-append xs ys (ground arith) new.1)

-- the osm_ids of staged rows
abbrev pub staged_ids : List StagedFeature → List String
staged_ids [] = []
staged_ids (s ∷ rest) = s.osm_id ∷ staged_ids rest

module _ (lib : Shapely) (db : PostGis lib) (snapshot_id : ℕ) where
  open db use {Geom}

  abbrev row : StagedFeature → SnapshotFeature Geom
  row = snapshot_feature lib db snapshot_id

  any-staged_ids :
      (s : StagedFeature) (rest : List StagedFeature)
      → any (same_feature (row s)) (map row rest) ≡ any (λ k. s.osm_id == k) (staged_ids rest)
  unfolding snapshot_feature
  any-staged_ids s [] = refl
  any-staged_ids s (t ∷ rest) = ground (arith, any-staged_ids s rest)

  pub all_different-staged_ids :
      (staged : List StagedFeature)
      → all_different same_feature (map row staged)
        ≡ all_different (λ a b. a == b) (staged_ids staged)
  unfolding all_different
  all_different-staged_ids [] = refl
  all_different-staged_ids (s ∷ rest) =
      rw (any-staged_ids s rest, all_different-staged_ids rest) refl

  any-others :
      (r : SnapshotFeature Geom) (staged : List StagedFeature)
      → eqb r.snapshot_id snapshot_id ≡ false
      → any (same_feature r) (map row staged) ≡ false
  unfolding snapshot_feature
  any-others r [] h = refl
  any-others r (s ∷ staged) h = ground (arith, any-others r staged h)

  pub others_differ :
      (staged : List StagedFeature) (table : List (SnapshotFeature Geom))
      → All
          (λ r. any (same_feature r) (map row staged) ≡ false)
          (keep (λ r. not (eqb r.snapshot_id snapshot_id)) table)
  others_differ staged [] = tt
  others_differ staged (r ∷ table) = elim (Bool-cases (eqb r.snapshot_id snapshot_id)) [
    | inl mine ↦ rw mine (others_differ staged table)
    | inr other ↦ rw other (any-others r staged other, others_differ staged table)
  ]
