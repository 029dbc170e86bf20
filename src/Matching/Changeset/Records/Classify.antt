-- ===== src/Matching/Changeset/Records/Classify.antt =====
-- The classification of a matched pair, read back to the geometries and the tags.
use gis_vector_map_changes.Prelude.{
  String, Bool, true, false, Option, none, some, arith, ◌≡◌, refl, ◌↔◌, eq_iff, if◌then◌else◌,
  Bool-cases, inl, inr, false≢true, sym, ◌∙◌,
}
use gis_vector_map_changes.Shapely.{Shapely}
use gis_vector_map_changes.Matching.Config.{t_unchanged_iou}
use gis_vector_map_changes.Matching.Features.{LoadedFeature}
use gis_vector_map_changes.Matching.Metrics.{
  attr, same_value, iou_of, changed_tags, compute_metrics,
}
use gis_vector_map_changes.Matching.Candidates.{is_empty}
use gis_vector_map_changes.Matching.Changeset.Records.{
  Classification, unchanged, modified_geometry, modified_attributes,
  modified_geometry_and_attributes, classification_of,
}

same_value_iff : (a b : Option String) → (same_value a b ≡ true) ↔ (a ≡ b)
same_value_iff none none = (λ h. refl, λ h. refl)
same_value_iff none (some b) = (λ h. cc, λ h. cc)
same_value_iff (some a) none = (λ h. cc, λ h. cc)
same_value_iff (some a) (some b) = ground (arith, eq_iff a b)

module _ (lib : Shapely) (a b : LoadedFeature lib) where
  -- The two features agree in each significant tag.
  pub record SameTags : Type 0 where
    pub building : attr a.attrs "building" ≡ attr b.attrs "building"
    pub category : attr a.attrs "category" ≡ attr b.attrs "category"
    pub name : attr a.attrs "name" ≡ attr b.attrs "name"

  -- The overlap of the two geometries falls short of the threshold.
  abbrev pub moved : Bool
  moved = lib.float_lt (iou_of lib a.geometry b.geometry) (t_unchanged_iou lib)

  abbrev class : Classification
  class = classification_of lib (compute_metrics lib a b)

  no_changed_tags : (is_empty (changed_tags lib a b) ≡ true) ↔ SameTags
  unfolding changed_tags
  no_changed_tags = (
    λ h. record {
      building = (same_value_iff _ _).0 (ground arith);
      category = (same_value_iff _ _).0 (ground arith);
      name = (same_value_iff _ _).0 (ground arith);
    },
    λ s. ground (
      arith,
      (same_value_iff (attr a.attrs "building") (attr b.attrs "building")).1 s.building,
      (same_value_iff (attr a.attrs "category") (attr b.attrs "category")).1 s.category,
      (same_value_iff (attr a.attrs "name") (attr b.attrs "name")).1 s.name,
    ),
  )

  class_lem : class ≡ (
      if moved
      then (if is_empty (changed_tags lib a b)
          then modified_geometry
          else modified_geometry_and_attributes)
      else (if is_empty (changed_tags lib a b) then unchanged else modified_attributes))
  unfolding classification_of compute_metrics
  class_lem = refl

  -- What each classification of a matched pair means.
  pub record Meaning : Type 0 where
    pub is_unchanged : (class ≡ unchanged) ↔ ((moved ≡ false) × SameTags)
    pub is_geometry : (class ≡ modified_geometry) ↔ ((moved ≡ true) × SameTags)
    pub is_attributes : (class ≡ modified_attributes) ↔ ((moved ≡ false) × ¬ SameTags)
    pub is_both : (class ≡ modified_geometry_and_attributes) ↔ ((moved ≡ true) × ¬ SameTags)

  -- A matched pair is classified by two independent questions: is the overlap of the geometries below
  -- the threshold, and do the features differ in a significant tag?
  pub classification_of-Meaning : Meaning
  classification_of-Meaning = elim (Bool-cases (is_empty (changed_tags lib a b))) [
    | inl none' ↦
        let same = no_changed_tags.0 none' in
        let c = class_lem in
        record {
          is_unchanged = (λ e. (ground arith, same), λ (m, s). ground arith);
          is_geometry = (λ e. (ground arith, same), λ (m, s). ground arith);
          is_attributes = (λ e. absurd (ground arith), λ (m, n). absurd (n same));
          is_both = (λ e. absurd (ground arith), λ (m, n). absurd (n same));
        }
    | inr some' ↦
        let differ = λ (s : SameTags). false≢true (sym some' ∙ no_changed_tags.1 s) in
        let c = class_lem in
        record {
          is_unchanged = (λ e. absurd (ground arith), λ (m, s). absurd (differ s));
          is_geometry = (λ e. absurd (ground arith), λ (m, s). absurd (differ s));
          is_attributes = (λ e. (ground arith, differ), λ (m, n). ground arith);
          is_both = (λ e. (ground arith, differ), λ (m, n). ground arith);
        }
  ]
