-- ===== src/Db/Changesets.antt =====
-- src/db/changesets.py
use gis_vector_map_changes.Prelude.{
  ℕ, String, Bool, ◌&&◌, Option, none, some, Result, ok, err, type_error, eqb, ◌==◌,
}
use gis_vector_map_changes.Db.{Row, Table, select_existing, upsert_returning}

-- The parameters of `_UPSERT_SQL`.
pub record ChangesetParams : Type 0 where
  pub snapshot_a_id : ℕ
  pub snapshot_b_id : ℕ
  pub algorithm_version : String
  pub change_layer_object_uri : String
  pub unchanged_count : ℕ
  pub modified_geometry_count : ℕ
  pub modified_attributes_count : ℕ
  pub modified_geometry_and_attributes_count : ℕ
  pub added_count : ℕ
  pub removed_count : ℕ
  pub ambiguous_count : ℕ

-- the columns of `_NATURAL_KEY_WHERE`
abbrev pub same_changeset : ChangesetParams → ChangesetParams → Bool
same_changeset p q =
    eqb p.snapshot_a_id q.snapshot_a_id
    && eqb p.snapshot_b_id q.snapshot_b_id
    && p.algorithm_version == q.algorithm_version

pub record ChangesetRow : Type 0 where
  pub id : ℕ
  pub created_time : ℕ
  pub created : Bool

pub record ChangesetLookup : Type 0 where
  pub id : ℕ
  pub change_layer_object_uri : String

-- `ChangesetRow(id=row[0], created_time=row[1], created=created)`
unfoldable pub changeset_row : Option (Row ChangesetParams) → Bool → Result ChangesetRow
changeset_row none created = err (type_error "no row")
changeset_row (some r) created = ok (record { id = r.id; created_time = r.time; created = created })

unfoldable pub upsert_changeset :
    ℕ → Table ChangesetParams → ChangesetParams → Table ChangesetParams × Result ChangesetRow
unfolding upsert_returning changeset_row
upsert_changeset now t params =
    let (next, (row, created)) = upsert_returning same_changeset now t params in
    (next, changeset_row row created)

unfoldable pub get_changeset : Table ChangesetParams → ChangesetParams → Option ChangesetLookup
get_changeset t params = elim (select_existing same_changeset t params) [
  | none ↦ none
  | some r ↦ some (record { id = r.id; change_layer_object_uri = r.params.change_layer_object_uri })
]
