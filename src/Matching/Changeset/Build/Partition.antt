-- ===== src/Matching/Changeset/Build/Partition.antt =====
-- `build_changeset` returns, and each feature of the two snapshots stands in exactly one record.
use gis_vector_map_changes.Prelude.{
  ◌+◌, String, List, [], ◌∷◌, ◌++◌, Bool, not, Option, Dict, keys, keep, contains, count, HashOrder,
  sort, ok, flat_map, All2, arith, ◌≡◌, refl, count-keep, All2-map, count-flat_map-All2,
  count-flat_map-append, count-flat_map-sort, sym,
}
use gis_vector_map_changes.Shapely.{Shapely, QueryLaw}
use gis_vector_map_changes.Matching.Features.{LoadedFeature}
use gis_vector_map_changes.Matching.Features.Loading.{IsKeyed}
use gis_vector_map_changes.Matching.Candidates.Exact.{IsCandidates, generate_candidates-exact}
use gis_vector_map_changes.Matching.Changeset.Components.{Group}
use gis_vector_map_changes.Matching.Changeset.Components.Correct.{
  IsComponents, connected_components_correct,
}
use gis_vector_map_changes.Matching.Changeset.Records.{ChangeRecord}
use gis_vector_map_changes.Matching.Changeset.Build.{
  shared_ids, matched_a, matched_b, record_le, build_changeset,
}
use gis_vector_map_changes.Matching.Changeset.Build.Groups.{Resolves}
use gis_vector_map_changes.Matching.Changeset.Build.Counts.{contains-matched, flat_map-singles}
use gis_vector_map_changes.Matching.Changeset.Build.Stages.{
  left_a, left_b, count-shared, count-left_a, count-left_b, by_id-returns, removed-returns,
  added-returns, count-side, groups-return, grouped_a, grouped_b, left, Names,
}

-- Every osm_id of the older snapshot stands once among the records' `osm_ids_a`, every one of the newer
-- snapshot once among their `osm_ids_b`, and no other osm_id does.
pub record IsPartition (lib : Shapely) (features_a features_b : Dict (LoadedFeature lib))
    (records : List (ChangeRecord lib)) : Type 0 where
  pub once_a :
      (x : String) → count x (flat_map (λ r. r.osm_ids_a) records) ≡ count x (keys features_a)
  pub once_b :
      (x : String) → count x (flat_map (λ r. r.osm_ids_b) records) ≡ count x (keys features_b)

count-four {ℓ} :
    {A : Type ℓ} (le : A → A → Bool) (f : A → List String) (x : String) (as1 as2 as3 as4 : List A)
    → count x (flat_map f (sort le (as1 ++ (as2 ++ (as3 ++ as4)))))
      ≡ count x (flat_map f as1)
        + count x (flat_map f as2)
        + count x (flat_map f as3)
        + count x (flat_map f as4)
count-four le f x as1 as2 as3 as4 = omega (
  arith,
  count-flat_map-sort le f x (as1 ++ (as2 ++ (as3 ++ as4))),
  count-flat_map-append f x as1 (as2 ++ (as3 ++ as4)),
  count-flat_map-append f x as2 (as3 ++ as4),
  count-flat_map-append f x as3 as4,
)

flat_map-none : (x : String) (xs : List String) → count x (flat_map (λ y. []) xs) ≡ 0
unfolding flat_map
flat_map-none x [] = refl
flat_map-none x (y ∷ xs) = flat_map-none x xs

module _ (lib : Shapely) (law : QueryLaw lib) (order : HashOrder) (fa fb : Dict (LoadedFeature lib))
    (aoi_boundary : Option lib.Geometry) (keyed_a : IsKeyed lib fa) (keyed_b : IsKeyed lib fb) where
  open order use {iterate, count-iterate}

  abbrev da : Dict (LoadedFeature lib)
  da = left_a lib fa fb keyed_a keyed_b

  abbrev db : Dict (LoadedFeature lib)
  db = left_b lib fa fb keyed_a keyed_b

  abbrev shared : List String
  shared = shared_ids lib fa fb

  -- the osm_ids that the loops over what is left meet
  abbrev gone_ids : List Group → List String
  gone_ids groups = iterate (keep (λ k. not (contains (matched_a groups) k)) (keys da))

  abbrev fresh_ids : List Group → List String
  fresh_ids groups = iterate (keep (λ k. not (contains (matched_b groups) k)) (keys db))

  abbrev Covers : List String → List String → ChangeRecord lib → Type 0
  Covers = Names lib fa fb keyed_a keyed_b

  -- The records of the stages partition the features.
  module _ (candidates : Dict (List String)) (exact : IsCandidates lib law da db candidates)
      (groups : List Group) (found : IsComponents candidates groups)
      (by_id resolved gone fresh : List (ChangeRecord lib))
      (named : All2 (λ x r. Covers (x ∷ []) (x ∷ []) r) (iterate shared) by_id)
      (grouped : All2
        (Resolves lib da db aoi_boundary candidates
          (left lib fa fb keyed_a keyed_b law order candidates exact groups found))
        groups
        resolved)
      (lost : All2 (λ x r. Covers (x ∷ []) [] r) (gone_ids groups) gone)
      (gained : All2 (λ x r. Covers [] (x ∷ []) r) (fresh_ids groups) fresh) where
    abbrev side_a : ChangeRecord lib → List String
    side_a r = r.osm_ids_a

    abbrev side_b : ChangeRecord lib → List String
    side_b r = r.osm_ids_b

    count-resolved_a :
        (x : String) → count x (flat_map side_a resolved) ≡ count x (flat_map (λ g. g.a_ids) groups)
    count-resolved_a x = sym (
        count-flat_map-All2 (λ g. g.a_ids) side_a x groups resolved
          (All2-map _ _ groups resolved (λ g r h. sym (h.ids_a x)) grouped))

    count-resolved_b :
        (x : String) → count x (flat_map side_b resolved) ≡ count x (flat_map (λ g. g.b_ids) groups)
    count-resolved_b x = sym (
        count-flat_map-All2 (λ g. g.b_ids) side_b x groups resolved
          (All2-map _ _ groups resolved (λ g r h. sym (h.ids_b x)) grouped))

    all_records : List (ChangeRecord lib)
    all_records = sort (record_le lib) (by_id ++ (resolved ++ (gone ++ fresh)))

    stages_once_a : (x : String) → count x (flat_map side_a all_records) ≡ count x (keys fa)
    unfolding all_records matched_a
    stages_once_a x = ground (
      arith,
      count-four (record_le lib) side_a x by_id resolved gone fresh,
      count-side lib fa fb keyed_a keyed_b aoi_boundary (iterate shared) side_a (λ y. y ∷ []) _
          by_id x (λ y r h. h.0) named,
      count-side lib fa fb keyed_a keyed_b aoi_boundary (gone_ids groups) side_a (λ y. y ∷ []) _
          gone x (λ y r h. h.0) lost,
      count-side lib fa fb keyed_a keyed_b aoi_boundary (fresh_ids groups) side_a (λ y. []) _ fresh
          x (λ y r h. h.0) gained,
      flat_map-none x (fresh_ids groups),
      flat_map-singles x (iterate shared),
      flat_map-singles x (gone_ids groups),
      count-iterate x shared,
      count-iterate x (keep (λ k. not (contains (matched_a groups) k)) (keys da)),
      count-keep (λ k. not (contains (matched_a groups) k)) x (keys da),
      contains-matched (λ g. g.a_ids) x [] groups,
      count-resolved_a x,
      count-shared lib fa fb keyed_a keyed_b x,
      count-left_a lib fa fb keyed_a keyed_b x,
      grouped_a lib fa fb keyed_a keyed_b law order candidates exact groups found x,
      keyed_a.distinct x,
    )

    stages_once_b : (x : String) → count x (flat_map side_b all_records) ≡ count x (keys fb)
    unfolding all_records matched_b
    stages_once_b x = ground (
      arith,
      count-four (record_le lib) side_b x by_id resolved gone fresh,
      count-side lib fa fb keyed_a keyed_b aoi_boundary (iterate shared) side_b (λ y. y ∷ []) _
          by_id x (λ y r h. h.1) named,
      count-side lib fa fb keyed_a keyed_b aoi_boundary (gone_ids groups) side_b (λ y. []) _ gone x
          (λ y r h. h.1) lost,
      count-side lib fa fb keyed_a keyed_b aoi_boundary (fresh_ids groups) side_b (λ y. y ∷ []) _
          fresh x (λ y r h. h.1) gained,
      flat_map-none x (gone_ids groups),
      flat_map-singles x (iterate shared),
      flat_map-singles x (fresh_ids groups),
      count-iterate x shared,
      count-iterate x (keep (λ k. not (contains (matched_b groups) k)) (keys db)),
      count-keep (λ k. not (contains (matched_b groups) k)) x (keys db),
      contains-matched (λ g. g.b_ids) x [] groups,
      count-resolved_b x,
      count-shared lib fa fb keyed_a keyed_b x,
      count-left_b lib fa fb keyed_a keyed_b x,
      grouped_b lib fa fb keyed_a keyed_b law order candidates exact groups found x,
      keyed_a.distinct x,
      keyed_b.distinct x,
    )

  -- On two keyed snapshots, where the tree query satisfies its law, `build_changeset` returns, whatever
  -- the order in which its sets are iterated, and its records partition the features of both snapshots.
  pub build_changeset-IsPartition :
      (records : List (ChangeRecord lib)) × (build_changeset lib order fa fb aoi_boundary
        ≡ ok records)
      × IsPartition lib fa fb records
  unfolding build_changeset
  build_changeset-IsPartition =
      let shared = shared_ids lib fa fb in
      let (by_id, run_by_id, named) =
        by_id-returns lib fa fb keyed_a keyed_b aoi_boundary (iterate shared)
          (λ x m. omega (arith, count-iterate x shared)) in
      let (candidates, run_candidates, exact) =
        generate_candidates-exact lib law da db
          (λ x. ground (arith, count-left_a lib fa fb keyed_a keyed_b x, keyed_a.distinct x)) in
      let (groups, run_groups, found) = connected_components_correct order candidates in
      let (resolved, run_resolved, grouped) =
        groups-return lib fa fb keyed_a keyed_b law order candidates exact groups found aoi_boundary
          groups found.components (λ x m. ground (arith, found.partition x)) in
      let (gone, run_gone, lost) =
        removed-returns lib fa fb keyed_a keyed_b aoi_boundary (gone_ids groups) (λ x m. ground (
          arith,
          count-iterate x (keep (λ k. not (contains (matched_a groups) k)) (keys da)),
          count-keep (λ k. not (contains (matched_a groups) k)) x (keys da),
        )) in
      let (fresh, run_fresh, gained) =
        added-returns lib fa fb keyed_a keyed_b aoi_boundary (fresh_ids groups) (λ x m. ground (
          arith,
          count-iterate x (keep (λ k. not (contains (matched_b groups) k)) (keys db)),
          count-keep (λ k. not (contains (matched_b groups) k)) x (keys db),
        )) in
      (
        all_records candidates exact groups found by_id resolved gone fresh named grouped lost
            gained,
        unfold all_records in
            rw (run_by_id, run_candidates, run_groups, run_resolved, run_gone, run_fresh),
        record {
          once_a =
              stages_once_a candidates exact groups found by_id resolved gone fresh named grouped
                lost gained;
          once_b =
              stages_once_b candidates exact groups found by_id resolved gone fresh named grouped
                lost gained;
        },
      )
