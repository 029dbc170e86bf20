-- ===== src/Api/Features.antt =====
-- The endpoints on snapshots and on single features. A row of an answer is the rows that it is selected from; the
-- conversion of geometries to GeoJSON and the area are left out. Rows that ORDER BY ties come in the order of the tables.
pub mod History
use gis_vector_map_changes.Prelude.{
  ℕ, String, List, [], ◌∷◌, map, keep, contains, Bool, ◌&&◌, ◌||◌, none, some, Result, ok, err,
  http_exception, eqb, ltb, length, sort, no_later, flat_map, ◌==◌,
}
use gis_vector_map_changes.Db.{Row}
use gis_vector_map_changes.Db.Snapshots.{SnapshotParams}
use gis_vector_map_changes.Db.Changesets.{ChangesetParams}
use gis_vector_map_changes.Publish.Tables.{SnapshotFeature, ChangeFeature}
use gis_vector_map_changes.Api.Changesets.{with_id, one, ChangesetSelect, changeset_select}

-- A row of `LIST_SNAPSHOTS`.
pub record SnapshotSelect : Type 0 where
  pub snapshot : Row SnapshotParams
  pub published_feature_count : ℕ

-- A row of `GET_SNAPSHOT_FEATURE` and of `GET_FEATURE_HISTORY`.
pub record FeatureSelect (G : Type 0) : Type 0 where
  pub snapshot : Row SnapshotParams
  pub feature : SnapshotFeature G

-- A row of `GET_FEATURE_CHANGE_PARTICIPATION`.
pub record Participation (F G : Type 0) : Type 0 where
  pub change : ChangeFeature F G
  pub changeset : ChangesetSelect

-- `requested_time` of a row of the history
abbrev pub time_of : {G : Type 0} → FeatureSelect G → ℕ
time_of row = row.snapshot.params.requested_time

-- What `get_feature_history` answers.
pub record FeatureHistory (F G : Type 0) : Type 0 where
  pub osm_id : String
  pub history : List (FeatureSelect G)
  pub changes : List (Participation F G)

module _ {G : Type 0} where
  -- `LIST_SNAPSHOTS`
  unfoldable pub list_snapshots :
      List (Row SnapshotParams) → List (SnapshotFeature G) → String → List SnapshotSelect
  list_snapshots snapshots features source_query_version =
      sort (no_later (λ row. row.snapshot.params.requested_time)) (
        map
          (λ s. record {
            snapshot = s;
            published_feature_count = length (keep (λ f. eqb f.snapshot_id s.id) features);
          })
          (keep (λ s. s.params.source_query_version == source_query_version) snapshots))

  -- the join of the features with their snapshots
  unfoldable pub feature_select :
      List (Row SnapshotParams) → List (SnapshotFeature G) → List (FeatureSelect G)
  unfolding with_id flat_map
  feature_select snapshots features =
      flat_map
        (λ f. map (λ s. record { snapshot = s; feature = f }) (with_id f.snapshot_id snapshots))
        features

  unfoldable pub get_snapshot_feature :
      List (Row SnapshotParams) → List (SnapshotFeature G) → ℕ → String → Result (FeatureSelect G)
  unfolding feature_select one
  get_snapshot_feature snapshots features snapshot_id osm_id =
      elim (one (
        keep (λ r. eqb r.feature.snapshot_id snapshot_id && r.feature.feature.osm_id == osm_id)
          (feature_select snapshots features))) [
            | none ↦ err (http_exception 404)
            | some row ↦ ok row
          ]

  -- the WHERE of `GET_FEATURE_HISTORY`
  unfoldable pub in_history : String → String → FeatureSelect G → Bool
  in_history osm_id source_query_version row =
      row.feature.feature.osm_id == osm_id
      && row.snapshot.params.source_query_version == source_query_version

  -- `GET_FEATURE_HISTORY`
  unfoldable pub feature_history :
      List (Row SnapshotParams)
      → List (SnapshotFeature G)
      → String
      → String
      → List (FeatureSelect G)
  unfolding feature_select in_history
  feature_history snapshots features osm_id source_query_version =
      sort (no_later time_of)
        (keep (in_history osm_id source_query_version) (feature_select snapshots features))

module _ {F G : Type 0} where
  -- the ORDER BY of `GET_FEATURE_CHANGE_PARTICIPATION`
  unfoldable pub earlier : Participation F G → Participation F G → Bool
  earlier p q =
      let a = p.changeset.snapshot_a.params.requested_time in
      let b = q.changeset.snapshot_a.params.requested_time in
      ltb a b || (eqb a b && no_later (λ r. r.changeset.snapshot_b.params.requested_time) p q)

  -- `GET_FEATURE_CHANGE_PARTICIPATION`
  unfoldable pub feature_changes :
      List (Row ChangesetParams)
      → List (Row SnapshotParams)
      → List (ChangeFeature F G)
      → String
      → List (Participation F G)
  unfolding changeset_select earlier flat_map
  feature_changes changesets snapshots changes osm_id = sort earlier (
      flat_map
        (λ cf.
          map (λ c. record { change = cf; changeset = c })
            (keep (λ c. eqb c.changeset.id cf.changeset_id)
              (changeset_select changesets snapshots)))
        (keep (λ cf. contains cf.change.osm_ids_a osm_id || contains cf.change.osm_ids_b osm_id)
          changes))

  unfoldable pub get_feature_history :
      List (Row ChangesetParams)
      → List (Row SnapshotParams)
      → List (SnapshotFeature G)
      → List (ChangeFeature F G)
      → String
      → String
      → Result (FeatureHistory F G)
  unfolding feature_history feature_changes
  get_feature_history changesets snapshots features changes osm_id source_query_version =
      elim (feature_history snapshots features osm_id source_query_version) [
        | [] ↦ err (http_exception 404)
        | row ∷ rows ↦ ok (record {
          osm_id = osm_id;
          history = row ∷ rows;
          changes = feature_changes changesets snapshots changes osm_id;
        })
      ]
