-- ===== src/Api/Changesets.antt =====
-- The endpoints on changesets.
pub mod Found
use gis_vector_map_changes.Prelude.{
  ℕ, ◌+◌, String, List, [], ◌∷◌, map, keep, Bool, Option, none, some, Result, ok, err,
  http_exception, eqb, leb, ltb, sort, flat_map, ◌||◌, ◌&&◌,
}
use gis_vector_map_changes.Db.{Row, Table}
use gis_vector_map_changes.Db.Snapshots.{SnapshotParams}
use gis_vector_map_changes.Db.Changesets.{ChangesetParams}

-- A row of `_CHANGESET_SELECT`.
pub record ChangesetSelect : Type 0 where
  pub changeset : Row ChangesetParams
  pub snapshot_a : Row SnapshotParams
  pub snapshot_b : Row SnapshotParams

-- The fields of a payload that `_changeset_payload` adds to its row.
pub record ChangesetPayload : Type 0 where
  pub row : ChangesetSelect
  pub span_label : String
  pub changed_count : ℕ

-- `sa.id = c.snapshot_a_id`
unfoldable pub with_id : {P : Type 0} → ℕ → List (Row P) → List (Row P)
with_id id = keep (λ s. eqb s.id id)

-- `_CHANGESET_SELECT`: the rows of the two joins
unfoldable pub changeset_select :
    List (Row ChangesetParams) → List (Row SnapshotParams) → List ChangesetSelect
unfolding with_id flat_map
changeset_select changesets snapshots =
    flat_map
      (λ c.
        flat_map
          (λ sa.
            map (λ sb. record { changeset = c; snapshot_a = sa; snapshot_b = sb })
              (with_id c.params.snapshot_b_id snapshots))
          (with_id c.params.snapshot_a_id snapshots))
      changesets

-- the ORDER BY of `LIST_CHANGESETS`, without a subtraction
unfoldable pub shorter_first : ChangesetSelect → ChangesetSelect → Bool
shorter_first p q =
    let left = p.snapshot_b.params.requested_time + q.snapshot_a.params.requested_time in
    let right = q.snapshot_b.params.requested_time + p.snapshot_a.params.requested_time in
    ltb left right
    || (eqb left right && leb p.snapshot_a.params.requested_time q.snapshot_a.params.requested_time)

-- the sum of `_changeset_payload`
unfoldable pub changed_count : ChangesetParams → ℕ
changed_count c =
    c.modified_geometry_count + c.modified_attributes_count
    + c.modified_geometry_and_attributes_count + c.added_count + c.removed_count + c.ambiguous_count

-- `_one`
unfoldable pub one : {A : Type 0} → List A → Option A
one [] = none
one (row ∷ rows) = some row

-- `span` is `_span_label`.
module _ (span : ℕ → ℕ → String) where
  unfoldable pub changeset_payload : ChangesetSelect → ChangesetPayload
  unfolding changed_count
  changeset_payload row = record {
    row = row;
    span_label = span row.snapshot_a.params.requested_time row.snapshot_b.params.requested_time;
    changed_count = changed_count row.changeset.params;
  }

  unfoldable pub list_changesets :
      Table ChangesetParams → Table SnapshotParams → List ChangesetPayload
  unfolding changeset_payload changeset_select shorter_first
  list_changesets changesets snapshots =
      map changeset_payload (sort shorter_first (changeset_select changesets.rows snapshots.rows))

  unfoldable pub get_changeset_payload :
      Table ChangesetParams → Table SnapshotParams → ℕ → Result ChangesetPayload
  unfolding changeset_payload changeset_select one
  get_changeset_payload changesets snapshots changeset_id =
      elim (one (
        keep (λ p. eqb p.changeset.id changeset_id)
          (changeset_select changesets.rows snapshots.rows))) [
            | none ↦ err (http_exception 404)
            | some row ↦ ok (changeset_payload row)
          ]
