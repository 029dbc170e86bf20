-- ===== src/Publish/Tables.antt =====
-- The publishing transactions of src/publish/postgis.py, and the constraints of the serving tables that
-- they can violate. A call that raises is not committed, so it leaves its table as it was.
use gis_vector_map_changes.Prelude.{
  ℕ, String, List, [], ◌∷◌, ◌++◌, map, Bool, true, false, not, ◌&&◌, ◌||◌, Option, none, some,
  Result, ok, err, value_error, db_error, traverse, eqb, any, keep, length, contains, ◌==◌, ◌>>=◌,
  ◌>>◌, if◌then◌else◌,
}
use gis_vector_map_changes.Json
use gis_vector_map_changes.Json.{Json, str, arr, nil}
use gis_vector_map_changes.Shapely.{Shapely}
use gis_vector_map_changes.Publish.{
  PostGis, StagedFeature, StagedChange, snapshot_feature_row, change_feature_row,
}

-- A row of `snapshot_features`.
pub record SnapshotFeature (G : Type 0) : Type 0 where
  pub snapshot_id : ℕ
  pub feature : StagedFeature
  pub geom : G
  pub geom_3857 : G

-- A row of `change_features`.
pub record ChangeFeature (F G : Type 0) : Type 0 where
  pub changeset_id : ℕ
  pub change : StagedChange F
  pub geom_a : Option G
  pub geom_b : Option G
  pub geom_render_3857 : G

-- No two of the elements are the same.
unfoldable pub all_different {ℓ} : {A : Type ℓ} → (A → A → Bool) → List A → Bool
all_different same [] = true
all_different same (x ∷ xs) =
    let rest = all_different same xs in if any (same x) xs then false else rest

-- one of the ids of the table that a foreign key refers to
abbrev pub has_id : List ℕ → ℕ → Bool
has_id ids id = any (λ i. eqb i id) ids

-- A row among these does not refer to a row of the other table.
abbrev pub dangles : {R : Type 0} → (R → Bool) → List R → Bool
dangles refers = any (λ r. not (refers r))

-- `_load_via_staging`: the table after the statements, and the number of rows that the INSERT wrote.
-- `insert` makes the rows from the staged ones; `refers` tests the foreign key of each inserted row, and
-- `accepts` the other constraints.
unfoldable pub load_via_staging :
    {R S : Type 0}
    → (R → Bool)
    → Result (List S)
    → (S → R)
    → (R → Bool)
    → (List R → Bool)
    → List R
    → Result (List R × ℕ)
load_via_staging deleted rows insert refers accepts table = do
  staged ← rows
  let after = keep (λ r. not (deleted r)) table ++ map insert staged
  if not (dangles refers (map insert staged)) && accepts after
      then ok (after, length staged)
      else err (db_error "constraint violated")

-- `connection.commit()`, which an exception skips
unfoldable pub committed : {R : Type 0} → List R → Result (List R × ℕ) → List R × Result ℕ
committed before (ok (after, written)) = (after, ok written)
committed before (err e) = (before, err e)

-- the columns of `snapshot_features_natural_key`
abbrev pub same_feature : {G : Type 0} → SnapshotFeature G → SnapshotFeature G → Bool
same_feature r s = eqb r.snapshot_id s.snapshot_id && r.feature.osm_id == s.feature.osm_id

-- the three CHECK constraints of `change_features`
abbrev pub checked : {F G : Type 0} → ChangeFeature F G → Bool
checked r =
    not (r.change.classification == "unchanged")
    && (not (r.change.classification == "added") || elim r.geom_b [ none ↦ false | some g ↦ true ])
    && (not (r.change.classification == "removed")
        || elim r.geom_a [ none ↦ false | some g ↦ true ])

-- `classification != "unchanged"`
unfoldable pub is_unchanged : {F : Type 0} → Json F → Bool
is_unchanged (str s) = s == "unchanged"
is_unchanged j = false

-- the comprehension for `features`
unfoldable pub changed_features : {F : Type 0} → List (Json F) → Result (List (Json F))
unfolding is_unchanged
changed_features [] = ok []
changed_features (f ∷ rest) = do
  props ← Json.index f "properties"
  classification ← Json.index props "classification"
  others ← changed_features rest
  ok (if is_unchanged classification then others else f ∷ others)

module _ (lib : Shapely) (db : PostGis lib) where
  open lib use {Float}
  open db use {Geom, from_hex, to_3857, union_rows}

  -- the SELECT of `_INSERT_SNAPSHOT_FEATURES`, for one staged row
  unfoldable pub snapshot_feature : ℕ → StagedFeature → SnapshotFeature Geom
  snapshot_feature snapshot_id s = record {
    snapshot_id = snapshot_id;
    feature = s;
    geom = from_hex s.geom_hex;
    geom_3857 = to_3857 (from_hex s.geom_hex);
  }

  -- the body of `publish_snapshot_features` before its commit
  unfoldable pub replace_features :
      List ℕ
      → List (SnapshotFeature Geom)
      → ℕ
      → Json Float
      → Result (List (SnapshotFeature Geom) × ℕ)
  unfolding load_via_staging snapshot_feature snapshot_feature_row all_different
  replace_features snapshot_ids table snapshot_id processed_geojson = do
    listed ← Json.get_or processed_geojson "features" (arr nil)
    features ← Json.as_list listed
    load_via_staging (λ r. eqb r.snapshot_id snapshot_id)
        (traverse (snapshot_feature_row lib db) features) (snapshot_feature snapshot_id)
        (λ r. has_id snapshot_ids r.snapshot_id) (all_different same_feature) table

  -- `snapshot_ids` are the ids of `snapshots`, to which `snapshot_id` refers.
  unfoldable pub publish_snapshot_features :
      List ℕ → List (SnapshotFeature Geom) → ℕ → Json Float → List (SnapshotFeature Geom) × Result ℕ
  unfolding committed replace_features
  publish_snapshot_features snapshot_ids table snapshot_id processed_geojson =
      committed table (replace_features snapshot_ids table snapshot_id processed_geojson)

  -- a subselect of `_INSERT_CHANGE_FEATURES`: NULL over no row
  unfoldable pub union_of : List Geom → Option Geom
  union_of [] = none
  union_of (g ∷ gs) = some (union_rows g gs)

  -- its rows
  unfoldable pub footprints : List (SnapshotFeature Geom) → ℕ → List String → List Geom
  footprints features snapshot_id osm_ids =
      map (λ r. r.geom)
        (keep (λ r. eqb r.snapshot_id snapshot_id && contains osm_ids r.feature.osm_id) features)

  -- the SELECT of `_INSERT_CHANGE_FEATURES`, for one staged row
  unfoldable pub change_feature :
      List (SnapshotFeature Geom) → ℕ → ℕ → ℕ → StagedChange Float → ChangeFeature Float Geom
  unfolding union_of footprints
  change_feature features changeset_id snapshot_a_id snapshot_b_id s = record {
    changeset_id = changeset_id;
    change = s;
    geom_a = union_of (footprints features snapshot_a_id s.osm_ids_a);
    geom_b = union_of (footprints features snapshot_b_id s.osm_ids_b);
    geom_render_3857 = to_3857 (from_hex s.geom_hex);
  }

  -- `_require_published_snapshot`
  unfoldable pub require_published_snapshot : List (SnapshotFeature Geom) → ℕ → Result (Unit {0})
  require_published_snapshot features snapshot_id =
      if any (λ r. eqb r.snapshot_id snapshot_id) features
      then ok tt
      else err (value_error "snapshot has no published features")

  -- the body of `publish_change_features` before its commit
  unfoldable pub replace_changes :
      List ℕ
      → List (SnapshotFeature Geom)
      → List (ChangeFeature Float Geom)
      → ℕ
      → ℕ
      → ℕ
      → Json Float
      → Result (List (ChangeFeature Float Geom) × ℕ)
  unfolding load_via_staging change_feature change_feature_row changed_features
      require_published_snapshot
  replace_changes changeset_ids features table changeset_id snapshot_a_id snapshot_b_id
        change_layer_geojson =
      do
        listed ← Json.get_or change_layer_geojson "features" (arr nil)
        layer ← Json.as_list listed
        changes ← changed_features layer
        require_published_snapshot features snapshot_a_id
        require_published_snapshot features snapshot_b_id
        load_via_staging (λ r. eqb r.changeset_id changeset_id)
            (traverse (change_feature_row lib db) changes)
            (change_feature features changeset_id snapshot_a_id snapshot_b_id)
            (λ r. has_id changeset_ids r.changeset_id)
            (λ rows. not (any (λ r. not (checked r)) rows)) table

  -- `changeset_ids` are the ids of `changesets`, to which `changeset_id` refers.
  unfoldable pub publish_change_features :
      List ℕ
      → List (SnapshotFeature Geom)
      → List (ChangeFeature Float Geom)
      → ℕ
      → ℕ
      → ℕ
      → Json Float
      → List (ChangeFeature Float Geom) × Result ℕ
  unfolding committed replace_changes
  publish_change_features changeset_ids features table changeset_id snapshot_a_id snapshot_b_id
        change_layer_geojson =
      committed table (
        replace_changes changeset_ids features table changeset_id snapshot_a_id snapshot_b_id
          change_layer_geojson)
