-- ===== src/Api/Features/History.antt =====
-- What the history of a feature holds.
use gis_vector_map_changes.Prelude.{
  ℕ, ◌+◌, ◌<◌, String, List, [], ◌∷◌, ◌++◌, map, keep, Bool, ◌&&◌, length, List-cases, ok, err,
  http_exception, Ascending, sort-Ascending, length-keep-sort, no_later, sort, arith, ◌≡◌, refl, ap,
  ◌∙◌, sym, subst, ◌⊎◌, inl, inr, eqb, ◌==◌, if◌then◌else◌, flat_map,
}
use gis_vector_map_changes.Db.{Row}
use gis_vector_map_changes.Db.Snapshots.{SnapshotParams}
use gis_vector_map_changes.Db.Changesets.{ChangesetParams}
use gis_vector_map_changes.Publish.Tables.{SnapshotFeature, ChangeFeature}
use gis_vector_map_changes.Api.Changesets.{with_id}
use gis_vector_map_changes.Api.Features.{
  FeatureSelect, FeatureHistory, time_of, feature_select, in_history, feature_history,
  feature_changes, get_feature_history,
}

-- how many of the elements pass a test
abbrev pub number_of : {A : Type 0} → (A → Bool) → List A → ℕ
number_of p [] = 0
number_of p (x ∷ xs) = let rest = number_of p xs in if p x then rest + 1 else rest

-- the sum over the elements
abbrev pub total : {A : Type 0} → (A → ℕ) → List A → ℕ
total n [] = 0
total n (x ∷ xs) = n x + total n xs

module _ {G : Type 0} (snapshots : List (Row SnapshotParams)) (features : List (SnapshotFeature G))
    (osm_id version : String) where
  -- The feature is the asked one, the snapshot is that of the feature and has the query version, and the two pass `p`.
  abbrev pub is_held : (FeatureSelect G → Bool) → SnapshotFeature G → Row SnapshotParams → Bool
  is_held p f s =
      f.feature.osm_id == osm_id
      && (eqb s.id f.snapshot_id
          && (s.params.source_query_version == version && p (record { snapshot = s; feature = f })))

  -- how many of the pairs of a published feature and a stored snapshot are held
  abbrev pub held : (FeatureSelect G → Bool) → ℕ
  held p = total (λ f. number_of (is_held p f) snapshots) features

  -- `rows` are the pairs that are held, each as often as it is stored, by ascending time.
  pub record IsTimeline (rows : List (FeatureSelect G)) : Type 0 where
    pub ascending : Ascending time_of rows
    pub number : (p : FeatureSelect G → Bool) → number_of p rows ≡ held p

  length-number_of :
      {A : Type 0} → (p : A → Bool) (xs : List A) → length (keep p xs) ≡ number_of p xs
  length-number_of p [] = refl
  length-number_of p (x ∷ xs) = ground (arith, length-number_of p xs)

  number_of-append :
      {A : Type 0}
      → (p : A → Bool) (xs ys : List A) → number_of p (xs ++ ys) ≡ number_of p xs + number_of p ys
  number_of-append p [] ys = omega arith
  number_of-append p (x ∷ xs) ys = ground (arith, number_of-append p xs ys)

  number_of-keep :
      {A : Type 0}
      → (p q : A → Bool) (xs : List A) → number_of p (keep q xs) ≡ number_of (λ x. q x && p x) xs
  number_of-keep p q [] = refl
  number_of-keep p q (x ∷ xs) = ground (arith, number_of-keep p q xs)

  -- the rows that the join gives for one feature
  number_of-joined :
      (p : FeatureSelect G → Bool) (f : SnapshotFeature G) (ss : List (Row SnapshotParams))
      → number_of
          (λ r. in_history osm_id version r && p r)
          (map (λ s. record { snapshot = s; feature = f }) (with_id f.snapshot_id ss))
        ≡ number_of (is_held p f) ss
  unfolding with_id in_history
  number_of-joined p f [] = refl
  number_of-joined p f (s ∷ ss) = ground (arith, number_of-joined p f ss)

  number_of-select :
      (p : FeatureSelect G → Bool) (fs : List (SnapshotFeature G))
      → number_of (λ r. in_history osm_id version r && p r) (feature_select snapshots fs)
        ≡ total (λ f. number_of (is_held p f) snapshots) fs
  unfolding feature_select flat_map
  number_of-select p [] = refl
  number_of-select p (f ∷ fs) =
      number_of-append (λ r. in_history osm_id version r && p r)
        (map (λ s. record { snapshot = s; feature = f }) (with_id f.snapshot_id snapshots)) _
      ∙ omega (arith, number_of-joined p f snapshots, number_of-select p fs)

  feature_history-IsTimeline : IsTimeline (feature_history snapshots features osm_id version)
  unfolding feature_history
  feature_history-IsTimeline =
      let rows = keep (in_history osm_id version) (feature_select snapshots features) in
      record {
        ascending = sort-Ascending time_of rows;
        number = λ p.
            sym (length-number_of p (sort (no_later time_of) rows))
            ∙ length-keep-sort (no_later time_of) p rows
            ∙ length-number_of p rows
            ∙ number_of-keep p (in_history osm_id version) (feature_select snapshots features)
            ∙ number_of-select p features;
      }

module _ {F G : Type 0} where
  -- A request for the history of a feature is answered with 404, and then no published feature with the osm_id belongs to a
  -- stored snapshot of the query version; or with at least one row, the pairs of such a feature and its snapshot, each as often
  -- as it is stored, by ascending time.
  pub get_feature_history-IsTimeline :
      (changesets : List (Row ChangesetParams)) (snapshots : List (Row SnapshotParams))
      (features : List (SnapshotFeature G)) (changes : List (ChangeFeature F G))
      (osm_id version : String)
      → ((get_feature_history changesets snapshots features changes osm_id version
            ≡ err (http_exception 404))
          × ((p : FeatureSelect G → Bool) → held snapshots features osm_id version p ≡ 0))
        ⊎ ((answer : FeatureHistory F G) × (get_feature_history changesets snapshots features
                changes osm_id version
              ≡ ok answer)
            × (0 < length answer.history)
            × IsTimeline snapshots features osm_id version answer.history)
  unfolding get_feature_history
  get_feature_history-IsTimeline changesets snapshots features changes osm_id version =
      let rows = feature_history snapshots features osm_id version in
      let line = feature_history-IsTimeline snapshots features osm_id version in
      elim (List-cases rows) [
        | inl none_held ↦ inl (
          rw (get_feature_history, none_held) refl,
          λ p. sym (line.number p) ∙ ap (number_of p) none_held,
        )
        | inr (row, later, found) ↦ inr (
          record {
            osm_id = osm_id;
            history = row ∷ later;
            changes = feature_changes changesets snapshots changes osm_id;
          },
          rw (get_feature_history, found) refl,
          omega arith,
          subst (IsTimeline snapshots features osm_id version) found line,
        )
      ]
