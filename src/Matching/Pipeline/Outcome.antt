-- ===== src/Matching/Pipeline/Outcome.antt =====
-- When `build_changeset_result` compares two snapshots, and what it returns.
use gis_vector_map_changes.Prelude.{
  List, Bool, true, false, Option, some, Dict, lookup, HashOrder, ok, err, err≢ok, false≢true, sym,
  value_error, All2, arith, ◌≡◌, refl, sym, ◌∙◌, ◌↔◌, eq_iff, ◌==◌, if◌then◌else◌, Bool-cases, inl,
  inr,
}
use gis_vector_map_changes.Json.{Json}
use gis_vector_map_changes.Shapely.{Shapely, QueryLaw}
use gis_vector_map_changes.Matching.Config.{algorithm_version}
use gis_vector_map_changes.Matching.Features.{LoadedFeature, load_features}
use gis_vector_map_changes.Matching.Features.Loading.{load_features-IsKeyed}
use gis_vector_map_changes.Matching.Changeset.Records.{Classification, classification_text}
use gis_vector_map_changes.Matching.Changeset.Build.Partition.{
  IsPartition, build_changeset-IsPartition,
}
use gis_vector_map_changes.Matching.Render.{collection}
use gis_vector_map_changes.Matching.Render.Total.{Renders, render_change_layer-returns}
use gis_vector_map_changes.Matching.Pipeline.{
  SnapshotRef, mismatches_in, validate_comparable, aoi_boundary_in_metric_crs, ChangesetResult,
  build_changeset_result,
}
use gis_vector_map_changes.Matching.Pipeline.Counts.{number, count_records_correct}

-- Snapshots of one source, layer, area of interest and query.
pub record IsComparable (a b : SnapshotRef) : Type 0 where
  pub source : a.source ≡ b.source
  pub layer : a.layer ≡ b.layer
  pub aoi_id : a.aoi_id ≡ b.aoi_id
  pub aoi_version : a.aoi_version ≡ b.aoi_version
  pub source_query_version : a.source_query_version ≡ b.source_query_version

-- the five tests of `validate_comparable`
abbrev same_fields : SnapshotRef → SnapshotRef → Bool
same_fields a b =
    if a.source == b.source
    then (if a.layer == b.layer
        then (if a.aoi_id == b.aoi_id
            then (if a.aoi_version == b.aoi_version
                then a.source_query_version == b.source_query_version
                else false)
            else false)
        else false)
    else false

validate_comparable-same_fields :
    (a b : SnapshotRef)
    → validate_comparable a b
      ≡ (if same_fields a b then ok tt else err (value_error "snapshots are not comparable"))
unfolding validate_comparable mismatches_in
validate_comparable-same_fields a b = ground arith

same_fields-IsComparable : (a b : SnapshotRef) → same_fields a b ≡ true → IsComparable a b
same_fields-IsComparable a b h = record {
  source = ground (arith, eq_iff a.source b.source);
  layer = ground (arith, eq_iff a.layer b.layer);
  aoi_id = ground (arith, eq_iff a.aoi_id b.aoi_id);
  aoi_version = ground (arith, eq_iff a.aoi_version b.aoi_version);
  source_query_version = ground (arith, eq_iff a.source_query_version b.source_query_version);
}

IsComparable-same_fields : (a b : SnapshotRef) → IsComparable a b → same_fields a b ≡ true
IsComparable-same_fields a b c = rw (
  (eq_iff a.source b.source).1 c.source,
  (eq_iff a.layer b.layer).1 c.layer,
  (eq_iff a.aoi_id b.aoi_id).1 c.aoi_id,
  (eq_iff a.aoi_version b.aoi_version).1 c.aoi_version,
  (eq_iff a.source_query_version b.source_query_version).1 c.source_query_version,
)

-- Two snapshots pass `validate_comparable` exactly if they agree on source, layer, both AOI fields and
-- the query version; otherwise it raises ValueError.
pub validate_comparable-IsComparable :
    (a b : SnapshotRef)
    → ((validate_comparable a b ≡ ok tt) ↔ IsComparable a b)
      × ((validate_comparable a b ≡ err (value_error "snapshots are not comparable"))
          ↔ (¬ IsComparable a b))
validate_comparable-IsComparable a b =
    let tests = validate_comparable-same_fields a b in
    elim (Bool-cases (same_fields a b)) [
      | inl same ↦
          let passed : validate_comparable a b ≡ ok tt = rw (tests, same) in
          let all = same_fields-IsComparable a b same in
          ((λ h. all, λ c. passed), (λ e. absurd (err≢ok (sym e ∙ passed)), λ n. absurd (n all)))
      | inr other ↦
          let raised : validate_comparable a b ≡ err (value_error "snapshots are not comparable") =
            rw (tests, other) in
          let differ : ¬ IsComparable a b =
            λ c. false≢true (sym other ∙ IsComparable-same_fields a b c) in
          (
            (λ h. absurd (err≢ok (sym raised ∙ h)), λ c. absurd (differ c)),
            (λ e. differ, λ n. raised),
          )
    ]

module _ (lib : Shapely) (law : QueryLaw lib) where
  -- What the result of two loaded snapshots holds.
  pub record IsResult (fa fb : Dict (LoadedFeature lib)) (r : ChangesetResult lib)
      (layer : List (Json lib.Float)) : Type 0 where
    pub partition : IsPartition lib fa fb r.records
    pub counts :
        (c : Classification)
        → lookup (classification_text c) r.counts
          ≡ some (number lib (classification_text c) r.records)
    pub change_layer : r.change_layer_geojson ≡ collection lib layer
    pub rendered : All2 (Renders lib fa fb) r.records layer

  -- Where two snapshots are comparable, load, and the boundary can be read, and the tree query
  -- satisfies its law, `build_changeset_result`
  -- returns, whatever the order in which sets are iterated: its records partition the features of both
  -- snapshots, its counts are the numbers of the records of each classification, and its change layer
  -- holds one feature for each record, in their order.
  pub build_changeset_result-IsResult :
      (order : HashOrder) (a b : SnapshotRef) (ja jb : Json lib.Float)
      (aoi_geometry : Option (Json lib.Float)) (fa fb : Dict (LoadedFeature lib))
      (aoi_boundary : Option lib.Geometry)
      → IsComparable a b
      → load_features lib ja ≡ ok fa
      → load_features lib jb ≡ ok fb
      → aoi_boundary_in_metric_crs lib aoi_geometry ≡ ok aoi_boundary
      → (r : ChangesetResult lib) × (layer : List (Json lib.Float)) × (build_changeset_result lib
            order a b ja jb aoi_geometry
          ≡ ok r)
        × IsResult fa fb r layer
  unfolding build_changeset_result
  build_changeset_result-IsResult order a b ja jb aoi_geometry fa fb aoi_boundary same load_a load_b
        read =
      let keyed_a = load_features-IsKeyed lib ja fa load_a in
      let keyed_b = load_features-IsKeyed lib jb fb load_b in
      let valid = (validate_comparable-IsComparable a b).0.1 same in
      let (records, built, partition) =
        build_changeset-IsPartition lib law order fa fb aoi_boundary keyed_a keyed_b in
      let (counts, counted, numbers, total) = count_records_correct lib records in
      let (layer, rendered, each) = render_change_layer-returns lib fa fb records partition in
      (
        record {
          version = algorithm_version;
          records = records;
          counts = counts;
          change_layer_geojson = collection lib layer;
        },
        layer,
        rw (valid, load_a, load_b, read, built, counted, rendered),
        record { partition = partition; counts = numbers; change_layer = refl; rendered = each },
      )
