-- ===== src/Matching/Pipeline/Parts.antt =====
-- What goes into a result: its counts and its change layer.
use gis_vector_map_changes.Prelude.{
  Option, Dict, ok, HashOrder, ◌≡◌, sym, ap, >>=-eq-ok, ok_injective, subst,
}
use gis_vector_map_changes.Json.{Json}
use gis_vector_map_changes.Shapely.{Shapely}
use gis_vector_map_changes.Matching.Config.{algorithm_version}
use gis_vector_map_changes.Matching.Features.{LoadedFeature, load_features}
use gis_vector_map_changes.Matching.Changeset.Records.{classifications}
use gis_vector_map_changes.Matching.Changeset.Build.{build_changeset}
use gis_vector_map_changes.Matching.Render.{render_change_layer}
use gis_vector_map_changes.Matching.Pipeline.{
  SnapshotRef, ChangesetResult, validate_comparable, aoi_boundary_in_metric_crs, zeros,
  count_records, build_changeset_result,
}

module _ (lib : Shapely) where
  -- The parts of a result.
  pub record Parts (result : ChangesetResult lib) : Type 0 where
    pub fa : Dict (LoadedFeature lib)
    pub fb : Dict (LoadedFeature lib)
    pub version : result.version ≡ algorithm_version
    pub counted : count_records lib (zeros classifications) result.records ≡ ok result.counts
    pub rendered : render_change_layer lib result.records fa fb ≡ ok result.change_layer_geojson

module _ (lib : Shapely) (order : HashOrder) where
  open lib use {Float}

  pub build_changeset_result-Parts :
      (a b : SnapshotRef) (ja jb : Json Float) (aoi_geometry : Option (Json Float))
      (result : ChangesetResult lib)
      → build_changeset_result lib order a b ja jb aoi_geometry ≡ ok result
      → Parts lib result
  unfolding build_changeset_result
  build_changeset_result-Parts a b ja jb aoi_geometry result h =
      let (_, _, run1) = >>=-eq-ok (validate_comparable a b) _ h in
      let (fa, _, run2) = >>=-eq-ok (load_features lib ja) _ run1 in
      let (fb, _, run3) = >>=-eq-ok (load_features lib jb) _ run2 in
      let (boundary, _, run4) = >>=-eq-ok (aoi_boundary_in_metric_crs lib aoi_geometry) _ run3 in
      let (records, _, run5) = >>=-eq-ok (build_changeset lib order fa fb boundary) _ run4 in
      let (counts, counted, run6) =
        >>=-eq-ok (count_records lib (zeros classifications) records) _ run5 in
      let (layer, rendered, run7) = >>=-eq-ok (render_change_layer lib records fa fb) _ run6 in
      let same = ok_injective run7 in
      record {
        fa = fa;
        fb = fb;
        version = ap (λ r. r.version) (sym same);
        counted =
            subst (λ r. count_records lib (zeros classifications) r.records ≡ ok r.counts) same
              counted;
        rendered =
            subst (λ r. render_change_layer lib r.records fa fb ≡ ok r.change_layer_geojson) same
              rendered;
      }
