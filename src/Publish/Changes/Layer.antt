-- ===== src/Publish/Changes/Layer.antt =====
-- Publishing the change layer that matching rendered.
use gis_vector_map_changes.Prelude.{
  ℕ, ◌+◌, suc, String, List, [], ◌∷◌, Bool, not, Result, ok, keep, length, Dict, arith, ◌≡◌, refl,
  sym, ap, ◌∙◌, ◌==◌, ◌>>=◌, if◌then◌else◌, Bool-cases, keep-keep, subst, inl, inr, ◌⊎◌, Error, err,
  ok_injective, >>=-eq-ok, traverse, eq_iff,
}
use gis_vector_map_changes.Json
use gis_vector_map_changes.Json.{Json, str, arr, nil, obj}
use gis_vector_map_changes.Shapely.{Shapely}
use gis_vector_map_changes.Matching.Features.{LoadedFeature}
use gis_vector_map_changes.Matching.Changeset.Records.{ChangeRecord, classification_text}
use gis_vector_map_changes.Matching.Render.{
  render_record, record_geometry, feature_of, collection, render_change_layer,
}
use gis_vector_map_changes.Matching.Pipeline.Counts.{number}
use gis_vector_map_changes.Publish.{PostGis}
use gis_vector_map_changes.Publish.Tables.{
  is_unchanged, changed_features, SnapshotFeature, ChangeFeature, replace_changes,
  publish_change_features,
}
use gis_vector_map_changes.Publish.Features.{features_in}
use gis_vector_map_changes.Publish.Changes.{
  PublishesChanges, publish_change_features-PublishesChanges,
}

module _ (lib : Shapely) (fa fb : Dict (LoadedFeature lib)) where
  open lib use {Float}

  -- the records that are not unchanged
  abbrev pub changed_records : List (ChangeRecord lib) → List (ChangeRecord lib)
  changed_records = keep (λ r. not (classification_text r.classification == "unchanged"))

  told_lem :
      (r : ChangeRecord lib) (f : Json Float)
      → render_record lib fa fb r ≡ ok f
      → (Json.index f "properties" >>= λ props. Json.index props "classification")
        ≡ ok (str (classification_text r.classification))
  unfolding render_record feature_of Json.index Json.find Json.obj_of
  told_lem r f run =
      let (g, here, same) = >>=-eq-ok (record_geometry lib r fa fb) _ run in
      let e = ok_injective same in rw (sym e) refl

  counted :
      (b : Bool) (n k m : ℕ)
      → n + k ≡ m
      → ((if b then n else suc n) + (if b then suc k else k)) ≡ suc m
  counted b n k m h = ground arith

  turned : (s : String) → ("unchanged" == s) ≡ (s == "unchanged")
  turned s = ground (arith, eq_iff s "unchanged", eq_iff "unchanged" s)

  -- Dropping the unchanged features of a rendered layer is dropping the unchanged records before rendering.
  changed_features-render :
      (records : List (ChangeRecord lib)) (layer : List (Json Float))
      → traverse (render_record lib fa fb) records ≡ ok layer
      → (changes : List (Json Float)) × (changed_features layer ≡ ok changes)
        × (traverse (render_record lib fa fb) (changed_records records) ≡ ok changes)
        × (length changes + number lib "unchanged" records ≡ length records)
  unfolding changed_features is_unchanged traverse
  changed_features-render [] layer h = ([], rw (sym (ok_injective h)) refl, refl, refl)
  changed_features-render (r ∷ records) layer h =
      let (f, here, run1) = >>=-eq-ok (render_record lib fa fb r) _ h in
      let (rest, there, run2) = >>=-eq-ok (traverse (render_record lib fa fb) records) _ run1 in
      let e = ok_injective run2 in
      let (changes, run, rendered, total) = changed_features-render records rest there in
      let (props, got, told) =
        >>=-eq-ok (Json.index f "properties") (λ props. Json.index props "classification")
          (told_lem r f here) in
      elim (Bool-cases (classification_text r.classification == "unchanged")) [
        | inl same ↦ (
          changes,
          rw (sym e) (rw (got, told, run, same) refl),
          rw same rendered,
          rw (turned (classification_text r.classification), same) (omega (arith, total)),
        )
        | inr other ↦ (
          f ∷ changes,
          rw (sym e) (rw (got, told, run, other) refl),
          rw other (rw (here, rendered) refl),
          rw (turned (classification_text r.classification), other) (omega (arith, total)),
        )
      ]

  layer_of_render :
      (records : List (ChangeRecord lib)) (geojson : Json Float)
      → render_change_layer lib records fa fb ≡ ok geojson
      → (layer : List (Json Float)) × (traverse (render_record lib fa fb) records ≡ ok layer)
        × (collection lib layer ≡ geojson)
  unfolding render_change_layer
  layer_of_render records geojson h =
      let (layer, run, same) = >>=-eq-ok (traverse (render_record lib fa fb) records) _ h in
      (layer, run, ok_injective same)

  features_in-collection :
      (db : PostGis lib) (layer : List (Json Float))
      → features_in lib db (collection lib layer) ≡ ok layer
  unfolding collection Json.get_or Json.as_list Json.find Json.obj_of
  features_in-collection db layer = ap ok (Json.items-arr_of layer)

  module _ (db : PostGis lib) (ids : List ℕ) (features : List (SnapshotFeature db.Geom)) where
    same_changes :
        (table : List (ChangeFeature Float db.Geom)) (changeset_id a b : ℕ)
        (geojson other : Json Float) (layer others changes : List (Json Float))
        → features_in lib db geojson ≡ ok layer
        → features_in lib db other ≡ ok others
        → changed_features layer ≡ ok changes
        → changed_features others ≡ ok changes
        → publish_change_features lib db ids features table changeset_id a b geojson
          ≡ publish_change_features lib db ids features table changeset_id a b other
    unfolding publish_change_features replace_changes
    same_changes table changeset_id a b geojson other layer others changes in_one in_other one two =
        let (listed1, got1, list1) =
          >>=-eq-ok (Json.get_or geojson "features" (arr nil)) _ in_one in
        let (listed2, got2, list2) =
          >>=-eq-ok (Json.get_or other "features" (arr nil)) _ in_other in
        rw (got1, list1, one, got2, list2, two) refl

    written_or_raised :
        (table : List (ChangeFeature Float db.Geom)) (changeset_id a b : ℕ) (geojson : Json Float)
        (layer changes : List (Json Float)) (out : List (ChangeFeature Float db.Geom) × Result ℕ)
        → features_in lib db geojson ≡ ok layer
        → changed_features layer ≡ ok changes
        → PublishesChanges lib db ids features table changeset_id a b geojson out
        → (out.1 ≡ ok (length changes)) ⊎ ((e : Error) × (out.1 ≡ err e))
    written_or_raised table changeset_id a b geojson layer changes (after, err e) listed changed
          done =
        inr (e, refl)
    written_or_raised table changeset_id a b geojson layer changes (after, ok n) listed changed
          done =
        let same = ok_injective (sym done.listed ∙ listed) in
        let equal = ok_injective (sym done.changed ∙ ap changed_features same ∙ changed) in
        inl (ap ok (done.number ∙ ap length equal))

    -- Publishing a layer that `render_change_layer` rendered returns the number of the records that are not
    -- unchanged, or raises; and it does what publishing the rendering of these records alone does.
    pub render_change_layer-publish_change_features :
        (records : List (ChangeRecord lib)) (geojson : Json Float)
        → render_change_layer lib records fa fb ≡ ok geojson
        → (table : List (ChangeFeature Float db.Geom)) (changeset_id a b : ℕ)
        → (changed : Json Float) × (written : ℕ) × (render_change_layer lib
              (changed_records records)
              fa
              fb
            ≡ ok changed)
          × (publish_change_features lib db ids features table changeset_id a b geojson
              ≡ publish_change_features lib db ids features table changeset_id a b changed)
          × (written + number lib "unchanged" records ≡ length records)
          × (((publish_change_features lib db ids features table changeset_id a b geojson).1
                ≡ ok written)
              ⊎ ((e : Error) × ((publish_change_features lib db ids features table changeset_id a b
                      geojson).1
                    ≡ err e)))
    unfolding render_change_layer
    render_change_layer-publish_change_features records geojson h table changeset_id a b =
        let (layer, rendered, is_layer) = layer_of_render records geojson h in
        let (changes, changed, again, total) = changed_features-render records layer rendered in
        let (changes2, changed2, again2, total2) =
          changed_features-render (changed_records records) changes again in
        let twice : changes2 ≡ changes = ok_injective (
          sym again2
          ∙ rw (keep-keep (λ r. not (classification_text r.classification == "unchanged")) records)
              again) in
        let listed =
          subst (λ g. features_in lib db g ≡ ok layer) is_layer (features_in-collection db layer) in
        (
          collection lib changes,
          length changes,
          rw again refl,
          same_changes table changeset_id a b geojson (collection lib changes) layer changes changes
              listed (features_in-collection db changes) changed (changed2 ∙ ap ok twice),
          total,
          written_or_raised table changeset_id a b geojson layer changes _ listed changed (
              publish_change_features-PublishesChanges lib db ids features table changeset_id a b
                geojson),
        )
