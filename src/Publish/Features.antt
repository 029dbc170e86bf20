-- ===== src/Publish/Features.antt =====
-- Publishing the features of a snapshot replaces them as a whole, or not at all.
pub mod Snapshots
use gis_vector_map_changes.Prelude.{
  ℕ, String, List, [], ◌∷◌, ◌++◌, map, Bool, true, false, not, Result, ok, err, keep, length, eqb,
  traverse, arith, ◌≡◌, refl, sym, ap, ◌∙◌, >>=-eq-ok, >>=-ok, ◌>>=◌, length-traverse, keep-append,
  keep-keep, keep-not-keep, keep-map_all, keep-map_none, append-nil,
}
use gis_vector_map_changes.Json
use gis_vector_map_changes.Json.{Json, arr, nil}
use gis_vector_map_changes.Shapely.{Shapely}
use gis_vector_map_changes.Publish.{PostGis, StagedFeature, snapshot_feature_row}
use gis_vector_map_changes.Publish.Tables.{
  SnapshotFeature, all_different, same_feature, has_id, dangles, load_via_staging, snapshot_feature,
  committed, replace_features, publish_snapshot_features,
}
use gis_vector_map_changes.Publish.Staging.{
  Loaded, load_via_staging-Loaded, load_via_staging_again, committed-elim, committed-returns,
}

module _ (lib : Shapely) (db : PostGis lib) where
  open lib use {Float}
  open db use {Geom}

  -- the rows of one snapshot, and those of the others
  abbrev pub rows_of : ℕ → List (SnapshotFeature Geom) → List (SnapshotFeature Geom)
  rows_of snapshot_id = keep (λ r. eqb r.snapshot_id snapshot_id)

  abbrev pub rows_of_others : ℕ → List (SnapshotFeature Geom) → List (SnapshotFeature Geom)
  rows_of_others snapshot_id = keep (λ r. not (eqb r.snapshot_id snapshot_id))

  -- the features of a FeatureCollection
  abbrev pub features_in : Json Float → Result (List (Json Float))
  features_in geojson = Json.get_or geojson "features" (arr nil) >>= Json.as_list

-- `ids` are the ids of the stored snapshots.
module _ (lib : Shapely) (db : PostGis lib) (ids : List ℕ) where
  open lib use {Float}
  open db use {Geom}

  -- The rows of the snapshot are those of the features, in order, and no other row has changed.
  pub record IsReplaced (table after : List (SnapshotFeature Geom)) (snapshot_id : ℕ)
      (geojson : Json Float) (written : ℕ) : Type 0 where
    pub features : List (Json Float)
    pub staged : List StagedFeature
    pub listed : features_in lib db geojson ≡ ok features
    pub rows : traverse (snapshot_feature_row lib db) features ≡ ok staged
    pub mine : rows_of lib db snapshot_id after ≡ map (snapshot_feature lib db snapshot_id) staged
    pub theirs : rows_of_others lib db snapshot_id after ≡ rows_of_others lib db snapshot_id table
    pub number : written ≡ length features
    pub stored :
        dangles (λ r. has_id ids r.snapshot_id) (map (snapshot_feature lib db snapshot_id) staged)
        ≡ false
    pub unique : all_different same_feature after ≡ true

  -- What a call has done, by how it ended.
  abbrev pub Publishes :
      List (SnapshotFeature Geom) → ℕ → Json Float → List (SnapshotFeature Geom) × Result ℕ → Type 0
  Publishes table snapshot_id geojson (after, ok written) =
      IsReplaced table after snapshot_id geojson written
  Publishes table snapshot_id geojson (after, err e) = after ≡ table

  own_row :
      (snapshot_id : ℕ) (s : StagedFeature)
      → eqb (snapshot_feature lib db snapshot_id s).snapshot_id snapshot_id ≡ true
  unfolding snapshot_feature
  own_row snapshot_id s = ground arith

  -- `publish_snapshot_features` replaces the rows of its snapshot by those of the features, in order,
  -- refers to a stored snapshot if there is a row, keeps the rows of the other snapshots and the natural key unique,
  -- and returns the number of the features; or it raises and leaves the table as it was.
  pub publish_snapshot_features-Publishes :
      (table : List (SnapshotFeature Geom)) (snapshot_id : ℕ) (geojson : Json Float)
      → Publishes table snapshot_id geojson
          (publish_snapshot_features lib db ids table snapshot_id geojson)
  unfolding publish_snapshot_features replace_features committed
  publish_snapshot_features-Publishes table snapshot_id geojson =
      committed-elim (Publishes table snapshot_id geojson) table _ (λ e. refl)
        (λ after written run.
          let (listed, got, run1) = >>=-eq-ok (Json.get_or geojson "features" (arr nil)) _ run in
          let (features, is_list, run2) = >>=-eq-ok (Json.as_list listed) _ run1 in
          let (staged, l) =
            load_via_staging-Loaded (λ r. eqb r.snapshot_id snapshot_id)
              (traverse (snapshot_feature_row lib db) features)
              (snapshot_feature lib db snapshot_id) (λ r. has_id ids r.snapshot_id)
              (all_different same_feature) table after written run2 in
          let own = own_row snapshot_id in
          record {
            features = features;
            staged = staged;
            listed = >>=-ok (Json.get_or geojson "features" (arr nil)) Json.as_list got is_list;
            rows = l.staged_rows;
            mine =
                ap (rows_of lib db snapshot_id) l.result
                ∙ keep-append (λ r. eqb r.snapshot_id snapshot_id)
                    (rows_of_others lib db snapshot_id table) _
                ∙ rw
                    (
                      keep-not-keep (λ r. eqb r.snapshot_id snapshot_id) table,
                      keep-map_all (λ r. eqb r.snapshot_id snapshot_id)
                          (snapshot_feature lib db snapshot_id) own staged,
                    )
                    refl;
            theirs =
                ap (rows_of_others lib db snapshot_id) l.result
                ∙ keep-append (λ r. not (eqb r.snapshot_id snapshot_id))
                    (rows_of_others lib db snapshot_id table) _
                ∙ rw
                    (
                      keep-keep (λ r. not (eqb r.snapshot_id snapshot_id)) table,
                      keep-map_none (λ r. not (eqb r.snapshot_id snapshot_id))
                          (snapshot_feature lib db snapshot_id) (λ s. ap not (own s)) staged,
                    )
                    (append-nil (rows_of_others lib db snapshot_id table));
            number =
                l.number
                ∙ length-traverse (snapshot_feature_row lib db) features staged l.staged_rows;
            stored = l.referred;
            unique = l.accepted;
          })

  replace_features_again :
      (table after : List (SnapshotFeature Geom)) (snapshot_id : ℕ) (geojson : Json Float)
      (written : ℕ)
      → replace_features lib db ids table snapshot_id geojson ≡ ok (after, written)
      → replace_features lib db ids after snapshot_id geojson ≡ ok (after, written)
  unfolding replace_features
  replace_features_again table after snapshot_id geojson written run =
      let (listed, got, run1) = >>=-eq-ok (Json.get_or geojson "features" (arr nil)) _ run in
      let (features, is_list, run2) = >>=-eq-ok (Json.as_list listed) _ run1 in
      rw (got, is_list)
        (load_via_staging_again (λ r. eqb r.snapshot_id snapshot_id)
          (traverse (snapshot_feature_row lib db) features) (snapshot_feature lib db snapshot_id)
          (λ r. has_id ids r.snapshot_id) (all_different same_feature) (own_row snapshot_id) table
          after written run2)

  -- Publishing the same features of a snapshot again, after a call that returned, returns the same number
  -- and leaves the table as it is.
  pub publish_snapshot_features_again :
      (table : List (SnapshotFeature Geom)) (snapshot_id : ℕ) (geojson : Json Float) (written : ℕ)
      → (publish_snapshot_features lib db ids table snapshot_id geojson).1 ≡ ok written
      → publish_snapshot_features lib db ids
          (publish_snapshot_features lib db ids table snapshot_id geojson).0
          snapshot_id
          geojson
        ≡ ((publish_snapshot_features lib db ids table snapshot_id geojson).0, ok written)
  unfolding publish_snapshot_features replace_features committed
  publish_snapshot_features_again table snapshot_id geojson written h =
      let before =
        committed-returns table (replace_features lib db ids table snapshot_id geojson) written h in
      let after = (publish_snapshot_features lib db ids table snapshot_id geojson).0 in
      ap (committed after) (replace_features_again table after snapshot_id geojson written before)
