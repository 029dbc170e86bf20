-- ===== src/Publish/Changes.antt =====
-- Publishing the records of a changeset replaces them as a whole, or not at all, and stores no record that
-- is unchanged.
pub mod Layer
use gis_vector_map_changes.Prelude.{
  ℕ, String, List, [], ◌∷◌, ◌++◌, map, Bool, true, false, not, any, Result, ok, err, value_error,
  keep, length, eqb, traverse, arith, ◌≡◌, refl, sym, ap, ◌∙◌, >>=-eq-ok, >>=-ok, ◌>>=◌, err≢ok,
  length-traverse, keep-append, keep-keep, keep-not-keep, keep-map_all, keep-map_none, append-nil,
  All, All-any, Bool-cases, inl, inr, if◌then◌else◌,
}
use gis_vector_map_changes.Json
use gis_vector_map_changes.Json.{Json, arr, nil}
use gis_vector_map_changes.Shapely.{Shapely}
use gis_vector_map_changes.Publish.{PostGis, StagedChange, change_feature_row}
use gis_vector_map_changes.Publish.Tables.{
  SnapshotFeature, ChangeFeature, checked, changed_features, change_feature,
  require_published_snapshot, committed, load_via_staging, has_id, dangles, replace_changes,
  publish_change_features,
}
use gis_vector_map_changes.Publish.Staging.{
  Loaded, load_via_staging-Loaded, load_via_staging_again, committed-elim, committed-returns,
}
use gis_vector_map_changes.Publish.Features.{features_in}

-- `ids` are the ids of the stored changesets.
module _ (lib : Shapely) (db : PostGis lib) (ids : List ℕ)
    (features : List (SnapshotFeature db.Geom)) where
  open lib use {Float}
  open db use {Geom}

  abbrev Rows : Type 0
  Rows = List (ChangeFeature Float Geom)

  -- the rows of one changeset, and those of the others
  abbrev pub changes_of : ℕ → Rows → Rows
  changes_of changeset_id = keep (λ r. eqb r.changeset_id changeset_id)

  abbrev pub changes_of_others : ℕ → Rows → Rows
  changes_of_others changeset_id = keep (λ r. not (eqb r.changeset_id changeset_id))

  -- The snapshot has a published feature.
  abbrev pub is_published : ℕ → Bool
  is_published snapshot_id = any (λ r. eqb r.snapshot_id snapshot_id) features

  -- The rows of the changeset are those of the changed features, in order, and no other row has changed.
  pub record IsReplaced (table after : Rows) (changeset_id snapshot_a_id snapshot_b_id : ℕ)
      (geojson : Json Float) (written : ℕ) : Type 0 where
    pub layer : List (Json Float)
    pub changes : List (Json Float)
    pub staged : List (StagedChange Float)
    pub listed : features_in lib db geojson ≡ ok layer
    pub changed : changed_features layer ≡ ok changes
    pub published_a : is_published snapshot_a_id ≡ true
    pub published_b : is_published snapshot_b_id ≡ true
    pub rows : traverse (change_feature_row lib db) changes ≡ ok staged
    pub mine :
        changes_of changeset_id after
        ≡ map (change_feature lib db features changeset_id snapshot_a_id snapshot_b_id) staged
    pub theirs : changes_of_others changeset_id after ≡ changes_of_others changeset_id table
    pub number : written ≡ length changes
    pub stored :
        dangles
          (λ r. has_id ids r.changeset_id)
          (map (change_feature lib db features changeset_id snapshot_a_id snapshot_b_id) staged)
        ≡ false
    pub valid : All (λ r. checked r ≡ true) after

  -- What a call has done, by how it ended.
  abbrev pub PublishesChanges : Rows → ℕ → ℕ → ℕ → Json Float → Rows × Result ℕ → Type 0
  PublishesChanges table changeset_id a b geojson (after, ok written) =
      IsReplaced table after changeset_id a b geojson written
  PublishesChanges table changeset_id a b geojson (after, err e) = after ≡ table

  own_change :
      (changeset_id a b : ℕ) (s : StagedChange Float)
      → eqb (change_feature lib db features changeset_id a b s).changeset_id changeset_id ≡ true
  unfolding change_feature
  own_change changeset_id a b s = ground arith

  require-is_published :
      (snapshot_id : ℕ)
      → require_published_snapshot lib db features snapshot_id ≡ ok tt
      → is_published snapshot_id ≡ true
  unfolding require_published_snapshot
  require-is_published snapshot_id h = ground arith

  -- `publish_change_features` finds both snapshots published, replaces the rows of its changeset by those
  -- of the features that are not unchanged, in order, refers to a stored changeset if there is a row, keeps the rows of the other
  -- changesets and the three CHECK constraints, and returns the number of these features; or it raises and leaves the table as it was.
  pub publish_change_features-PublishesChanges :
      (table : Rows) (changeset_id snapshot_a_id snapshot_b_id : ℕ) (geojson : Json Float)
      → PublishesChanges table changeset_id snapshot_a_id snapshot_b_id geojson (
          publish_change_features lib db ids features table changeset_id snapshot_a_id snapshot_b_id
            geojson)
  unfolding publish_change_features replace_changes
  publish_change_features-PublishesChanges table changeset_id a b geojson =
      committed-elim (PublishesChanges table changeset_id a b geojson) table _ (λ e. refl)
        (λ after written run.
          let (listed, got, run1) = >>=-eq-ok (Json.get_or geojson "features" (arr nil)) _ run in
          let (layer, is_list, run2) = >>=-eq-ok (Json.as_list listed) _ run1 in
          let (changes, changed, run3) = >>=-eq-ok (changed_features layer) _ run2 in
          let (_, found_a, run4) =
            >>=-eq-ok (require_published_snapshot lib db features a) _ run3 in
          let (_, found_b, run5) =
            >>=-eq-ok (require_published_snapshot lib db features b) _ run4 in
          let row = change_feature lib db features changeset_id a b in
          let (staged, l) =
            load_via_staging-Loaded (λ r. eqb r.changeset_id changeset_id)
              (traverse (change_feature_row lib db) changes) row (λ r. has_id ids r.changeset_id)
              (λ rows. not (any (λ r. not (checked r)) rows)) table after written run5 in
          let own = own_change changeset_id a b in
          record {
            layer = layer;
            changes = changes;
            staged = staged;
            listed = >>=-ok (Json.get_or geojson "features" (arr nil)) Json.as_list got is_list;
            changed = changed;
            published_a = require-is_published a found_a;
            published_b = require-is_published b found_b;
            rows = l.staged_rows;
            mine =
                ap (changes_of changeset_id) l.result
                ∙ keep-append (λ r. eqb r.changeset_id changeset_id)
                    (changes_of_others changeset_id table) _
                ∙ rw
                    (
                      keep-not-keep (λ r. eqb r.changeset_id changeset_id) table,
                      keep-map_all (λ r. eqb r.changeset_id changeset_id) row own staged,
                    )
                    refl;
            theirs =
                ap (changes_of_others changeset_id) l.result
                ∙ keep-append (λ r. not (eqb r.changeset_id changeset_id))
                    (changes_of_others changeset_id table) _
                ∙ rw
                    (
                      keep-keep (λ r. not (eqb r.changeset_id changeset_id)) table,
                      keep-map_none (λ r. not (eqb r.changeset_id changeset_id)) row
                          (λ s. ap not (own s)) staged,
                    )
                    (append-nil (changes_of_others changeset_id table));
            number =
                l.number ∙ length-traverse (change_feature_row lib db) changes staged l.staged_rows;
            stored = l.referred;
            valid = All-any checked after l.accepted;
          })

  replace_changes_again :
      (table after : Rows) (changeset_id a b : ℕ) (geojson : Json Float) (written : ℕ)
      → replace_changes lib db ids features table changeset_id a b geojson ≡ ok (after, written)
      → replace_changes lib db ids features after changeset_id a b geojson ≡ ok (after, written)
  unfolding replace_changes
  replace_changes_again table after changeset_id a b geojson written run =
      let (listed, got, run1) = >>=-eq-ok (Json.get_or geojson "features" (arr nil)) _ run in
      let (layer, is_list, run2) = >>=-eq-ok (Json.as_list listed) _ run1 in
      let (changes, changed, run3) = >>=-eq-ok (changed_features layer) _ run2 in
      let (_, found_a, run4) = >>=-eq-ok (require_published_snapshot lib db features a) _ run3 in
      let (_, found_b, run5) = >>=-eq-ok (require_published_snapshot lib db features b) _ run4 in
      rw (got, is_list, changed, found_a, found_b)
        (load_via_staging_again (λ r. eqb r.changeset_id changeset_id)
          (traverse (change_feature_row lib db) changes)
          (change_feature lib db features changeset_id a b) (λ r. has_id ids r.changeset_id)
          (λ rows. not (any (λ r. not (checked r)) rows)) (own_change changeset_id a b) table after
          written run5)

  -- Publishing the same changeset again, after a call that returned, returns the same number and leaves
  -- the table as it is.
  pub publish_change_features_again :
      (table : Rows) (changeset_id a b : ℕ) (geojson : Json Float) (written : ℕ)
      → (publish_change_features lib db ids features table changeset_id a b geojson).1 ≡ ok written
      → publish_change_features lib db ids features
          (publish_change_features lib db ids features table changeset_id a b geojson).0
          changeset_id
          a
          b
          geojson
        ≡ (
          (publish_change_features lib db ids features table changeset_id a b geojson).0,
          ok written,
        )
  unfolding publish_change_features committed
  publish_change_features_again table changeset_id a b geojson written h =
      let before =
        committed-returns table (replace_changes lib db ids features table changeset_id a b geojson)
          written h in
      let after = (publish_change_features lib db ids features table changeset_id a b geojson).0 in
      ap (committed after)
        (replace_changes_again table after changeset_id a b geojson written before)
