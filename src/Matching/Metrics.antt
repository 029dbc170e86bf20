-- ===== src/Matching/Metrics.antt =====
-- src/matching/metrics.py
use gis_vector_map_changes.Prelude.{
  String, List, Bool, true, false, not, Option, none, some, Dict, lookup, keep, ◌==◌, if◌then◌else◌,
}
use gis_vector_map_changes.Shapely.{Shapely}
use gis_vector_map_changes.Matching.Config.{significant_tags}
use gis_vector_map_changes.Matching.Features.{LoadedFeature}

-- `==` on the values of a tag, `None` included
abbrev pub same_value : Option String → Option String → Bool
same_value none none = true
same_value (some a) (some b) = a == b
same_value _ _ = false

-- `attrs.get(tag)`, where a missing key reads as `None`
unfoldable pub attr : Dict (Option String) → String → Option String
attr attrs tag = elim (lookup tag attrs) [ none ↦ none | some value ↦ value ]

module _ (lib : Shapely) where
  open lib use {
    Float, Geometry, decimal, float_eq, float_sub, float_div, area, union, intersection, centroid,
    x_of, y_of, distance, hausdorff_distance, translate,
  }

  pub record MatchMetrics : Type 0 where
    pub iou : Float
    pub iou_centroid_aligned : Float
    pub centroid_shift_m : Float
    pub area_ratio : Float
    pub hausdorff_m : Float
    pub attrs_changed : List String

  -- `_iou`
  unfoldable pub iou_of : Geometry → Geometry → Float
  iou_of geom_a geom_b =
      let union_area = area (union geom_a geom_b) in
      if float_eq union_area (decimal 0 0)
      then decimal 0 1
      else float_div (area (intersection geom_a geom_b)) union_area

  -- the comprehension for `attrs_changed`
  unfoldable pub changed_tags : LoadedFeature lib → LoadedFeature lib → List String
  unfolding attr
  changed_tags a b =
      keep (λ tag. not (same_value (attr a.attrs tag) (attr b.attrs tag))) significant_tags

  -- `if area_a` is false for a float that equals 0.
  unfoldable pub compute_metrics : LoadedFeature lib → LoadedFeature lib → MatchMetrics
  unfolding iou_of changed_tags
  compute_metrics a b =
      let ga = a.geometry in
      let gb = b.geometry in
      let area_a = area ga in
      let area_b = area gb in
      let centroid_a = centroid ga in
      let centroid_b = centroid gb in
      let gb_aligned =
        translate gb (float_sub (x_of centroid_a) (x_of centroid_b))
          (float_sub (y_of centroid_a) (y_of centroid_b)) in
      record {
        iou = iou_of ga gb;
        iou_centroid_aligned = iou_of ga gb_aligned;
        centroid_shift_m = distance centroid_a centroid_b;
        area_ratio = if float_eq area_a (decimal 0 0) then decimal 0 1 else float_div area_b area_a;
        hausdorff_m = hausdorff_distance ga gb;
        attrs_changed = changed_tags a b;
      }
