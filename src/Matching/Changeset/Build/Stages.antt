-- ===== src/Matching/Changeset/Build/Stages.antt =====
-- What the stages of `build_changeset` return, and the osm_ids that their records name.
use gis_vector_map_changes.Prelude.{
  ◌≤◌, String, List, [], ◌∷◌, true, false, not, Option, Dict, keys, lookup, index, contains, count,
  In, HashOrder, ok, traverse, flat_map, All, All2, arith, ◌≡◌, refl, ap, inl, inr, Bool-cases,
  if◌then◌else◌, count-keep, count-append, count-keys-keep, lookup-keep, index_of_In, In_of_lookup,
  traverse-returns, All-of_In, count-flat_map-All2, All2-map, sym, Option-cases,
}
use gis_vector_map_changes.Shapely.{Shapely, QueryLaw}
use gis_vector_map_changes.Matching.Features.{LoadedFeature}
use gis_vector_map_changes.Matching.Features.Loading.{IsKeyed}
use gis_vector_map_changes.Matching.Metrics.{compute_metrics}
use gis_vector_map_changes.Matching.Candidates.{is_pair}
use gis_vector_map_changes.Matching.Candidates.Exact.{IsCandidates}
use gis_vector_map_changes.Matching.Changeset.Components.{Group, ids, neighbours}
use gis_vector_map_changes.Matching.Changeset.Components.Graph.{is_node}
use gis_vector_map_changes.Matching.Changeset.Components.Correct.{IsComponent, IsComponents}
use gis_vector_map_changes.Matching.Changeset.Records.{
  ChangeRecord, removed, added, classify_matched, added_or_removed,
}
use gis_vector_map_changes.Matching.Changeset.Build.{
  shared_ids, only_in_a, only_in_b, match_by_id, removed_record, added_record, resolve_group,
  candidate_sets,
}
use gis_vector_map_changes.Matching.Changeset.Build.Rows.{row_of}
use gis_vector_map_changes.Matching.Changeset.Build.Edges.{IsLeft}
use gis_vector_map_changes.Matching.Changeset.Build.Groups.{Resolves, resolve_group-returns}
use gis_vector_map_changes.Matching.Changeset.Build.Counts.{count-flat_map-ids}

module _ (lib : Shapely) (fa fb : Dict (LoadedFeature lib)) (keyed_a : IsKeyed lib fa)
    (keyed_b : IsKeyed lib fb) where
  abbrev pub left_a : Dict (LoadedFeature lib)
  left_a = only_in_a lib fa fb

  abbrev pub left_b : Dict (LoadedFeature lib)
  left_b = only_in_b lib fa fb

  pub count-shared :
      (x : String)
      → count x (shared_ids lib fa fb) ≡ (if contains (keys fb) x then count x (keys fa) else 0)
  unfolding shared_ids
  count-shared x = count-keep (contains (keys fb)) x (keys fa)

  pub count-left_a :
      (x : String) → count x (keys left_a) ≡ (if contains (keys fb) x then 0 else count x (keys fa))
  unfolding only_in_a
  count-left_a x =
      ground
        (arith, count-shared x, count-keys-keep (λ k. not (contains (shared_ids lib fa fb) k)) x fa)

  pub count-left_b :
      (x : String) → count x (keys left_b) ≡ (if contains (keys fa) x then 0 else count x (keys fb))
  unfolding only_in_b
  count-left_b x =
      ground
        (arith, count-shared x, count-keys-keep (λ k. not (contains (shared_ids lib fa fb) k)) x fb)

  own_id_a : (x : String) (f : LoadedFeature lib) → index left_a x ≡ ok f → f.osm_id ≡ x
  unfolding only_in_a index
  own_id_a x f h =
      keyed_a.own_id x f
        (ground (arith, lookup-keep (λ k. not (contains (shared_ids lib fa fb) k)) x fa))

  own_id_b : (x : String) (f : LoadedFeature lib) → index left_b x ≡ ok f → f.osm_id ≡ x
  unfolding only_in_b index
  own_id_b x f h =
      keyed_b.own_id x f
        (ground (arith, lookup-keep (λ k. not (contains (shared_ids lib fa fb) k)) x fb))

  -- The record names just these osm_ids.
  abbrev pub Names : List String → List String → ChangeRecord lib → Type 0
  Names xs ys r = (r.osm_ids_a ≡ xs) × (r.osm_ids_b ≡ ys)

  module _ (aoi_boundary : Option lib.Geometry) (xs : List String) where
    -- The record of a feature that kept its osm_id names this osm_id on both sides.
    pub by_id-returns :
        ((x : String) → In x xs → In x (shared_ids lib fa fb))
        → (rs : List (ChangeRecord lib)) × (traverse (match_by_id lib fa fb aoi_boundary) xs
            ≡ ok rs)
          × All2 (λ x r. Names (x ∷ []) (x ∷ []) r) xs rs
    unfolding match_by_id
    by_id-returns inside =
        traverse-returns (match_by_id lib fa fb aoi_boundary) (λ x r. Names (x ∷ []) (x ∷ []) r) xs
          (All-of_In _ xs (λ x m.
            let both = inside x m in
            let (a, at_a) = index_of_In x fa (ground (arith, count-shared x)) in
            let (b, at_b) = index_of_In x fb (ground (arith, count-shared x)) in
            (
              classify_matched lib x x "osm_id" (compute_metrics lib a b) a b aoi_boundary,
              rw (at_a, at_b),
              (refl, refl),
            )))

    -- The record of a feature with no counterpart names its osm_id on its own side.
    pub removed-returns :
        ((x : String) → In x xs → In x (keys left_a))
        → (rs : List (ChangeRecord lib)) × (traverse
              (removed_record lib left_a left_b aoi_boundary)
              xs
            ≡ ok rs)
          × All2 (λ x r. Names (x ∷ []) [] r) xs rs
    unfolding removed_record
    removed-returns inside =
        traverse-returns (removed_record lib left_a left_b aoi_boundary)
          (λ x r. Names (x ∷ []) [] r) xs
          (All-of_In _ xs (λ x m.
            let (a, at_a) = index_of_In x left_a (inside x m) in
            (added_or_removed lib removed a aoi_boundary, rw at_a, (rw (own_id_a x a at_a), refl))))

    pub added-returns :
        ((x : String) → In x xs → In x (keys left_b))
        → (rs : List (ChangeRecord lib)) × (traverse
              (added_record lib left_a left_b aoi_boundary)
              xs
            ≡ ok rs)
          × All2 (λ x r. Names [] (x ∷ []) r) xs rs
    unfolding added_record
    added-returns inside =
        traverse-returns (added_record lib left_a left_b aoi_boundary) (λ x r. Names [] (x ∷ []) r)
          xs
          (All-of_In _ xs (λ x m.
            let (b, at_b) = index_of_In x left_b (inside x m) in
            (added_or_removed lib added b aoi_boundary, rw at_b, (refl, rw (own_id_b x b at_b)))))

    -- What such a loop's records hold on one side, taken together.
    pub count-side :
        (side : ChangeRecord lib → List String) (f : String → List String)
        (R : String → ChangeRecord lib → Type 0) (rs : List (ChangeRecord lib)) (z : String)
        → ((x : String) (r : ChangeRecord lib) → R x r → side r ≡ f x)
        → All2 R xs rs
        → count z (flat_map side rs) ≡ count z (flat_map f xs)
    count-side side f R rs z h all = sym (
        count-flat_map-All2 f side z xs rs (
          All2-map R (λ x r. count z (f x) ≡ count z (side r)) xs rs
            (λ x r holds. ap (count z) (sym (h x r holds))) all))

  -- The groups that the loop meets, and what is known of them.
  module _ (law : QueryLaw lib) (order : HashOrder) (candidates : Dict (List String))
      (exact : IsCandidates lib law left_a left_b candidates) (groups : List Group)
      (found : IsComponents candidates groups) where
    shared-lookups :
        (a b : String) → is_pair candidates a b ≡ true → In a (keys left_a) × In b (keys left_b)
    shared-lookups a b pair = elim (Option-cases (lookup a left_a)) [
      | inl missing ↦ absurd (ground (arith, exact.exact a b))
      | inr (f, at_a) ↦ elim (Option-cases (lookup b left_b)) [
        | inl missing ↦ absurd (ground (arith, exact.exact a b))
        | inr (g, at_b) ↦ (In_of_lookup a left_a f at_a, In_of_lookup b left_b g at_b)
      ]
    ]

    pub left : IsLeft lib left_a left_b candidates
    left = record {
      distinct = exact.distinct;
      in_a = exact.a_keys;
      in_b = λ a b pair. (shared-lookups a b pair).1;
      disjoint = λ x m. ground (arith, count-left_a x, count-left_b x);
    }

    pub groups-return :
        (aoi_boundary : Option lib.Geometry) (gs : List Group)
        → All (IsComponent (neighbours candidates) (keys candidates)) gs
        → ((x : String) → In x (flat_map ids gs) → is_node candidates x ≡ true)
        → (rs : List (ChangeRecord lib)) × (traverse
              (resolve_group lib left_a left_b aoi_boundary (candidate_sets candidates))
              gs
            ≡ ok rs)
          × All2 (Resolves lib left_a left_b aoi_boundary candidates left) gs rs
    unfolding traverse flat_map
    groups-return aoi_boundary [] all nodes = ([], refl, tt)
    groups-return aoi_boundary (g ∷ gs) all nodes =
        let total = λ (x : String). count-append x (ids g) (flat_map ids gs) in
        let (r, run, resolves) =
          resolve_group-returns lib left_a left_b aoi_boundary candidates left g.a_ids g.b_ids all.0
            (λ x m. nodes x (omega (arith, total x))) in
        let (rs, rest, others) =
          groups-return aoi_boundary gs all.1 (λ x m. nodes x (omega (arith, total x))) in
        (r ∷ rs, rw (run, rest), (resolves, others))

    -- The osm_ids of the groups, side by side.
    In-groups_a :
        (gs : List Group) (x : String)
        → All (IsComponent (neighbours candidates) (keys candidates)) gs
        → In x (flat_map (λ g. g.a_ids) gs)
        → In x (keys candidates)
    unfolding flat_map
    In-groups_a [] x all m = absurd (omega arith)
    In-groups_a (g ∷ gs) x all m = ground (
      arith,
      (all.0).a_side_only x,
      In-groups_a gs x all.1,
      count-append x g.a_ids (flat_map (λ h. h.a_ids) gs),
    )

    In-groups_b :
        (gs : List Group) (x : String)
        → All (IsComponent (neighbours candidates) (keys candidates)) gs
        → In x (flat_map (λ g. g.b_ids) gs)
        → contains (keys candidates) x ≡ false
    unfolding flat_map
    In-groups_b [] x all m = absurd (omega arith)
    In-groups_b (g ∷ gs) x all m = ground (
      arith,
      (all.0).b_side_only x,
      In-groups_b gs x all.1,
      count-append x g.b_ids (flat_map (λ h. h.b_ids) gs),
    )

    pub grouped_a : (x : String) → count x (flat_map (λ g. g.a_ids) groups) ≤ count x (keys left_a)
    grouped_a x = ground (
      arith,
      found.partition x,
      count-flat_map-ids x groups,
      In-groups_a groups x found.components,
      exact.a_keys x,
    )

    pub grouped_b : (x : String) → count x (flat_map (λ g. g.b_ids) groups) ≤ count x (keys left_b)
    grouped_b x = elim (Bool-cases (contains (flat_map (λ g. g.b_ids) groups) x)) [
      | inr outside ↦ ground arith
      | inl inside ↦
          let (a, pair) =
            row_of candidates x (ground (arith, found.partition x, count-flat_map-ids x groups))
              (In-groups_b groups x found.components (ground arith)) in
          ground
            (arith, found.partition x, count-flat_map-ids x groups, (shared-lookups a x pair).1)
    ]
