-- ===== src/Db.antt =====
-- src/db/: the rows of the metadata tables. A table is the list of its rows, oldest first, with the
-- value that the sequence of its ids gives next; the time is that of the database.
pub mod Idempotent
pub mod Snapshots
pub mod Changesets
pub mod Lookup
pub mod Kept
use gis_vector_map_changes.Prelude.{
  ℕ, ◌+◌, String, List, [], ◌∷◌, ◌++◌, Bool, true, false, Option, none, some, if◌then◌else◌,
}

-- A stored row: its id, the time of its insertion, and the parameters that it was inserted with.
pub record Row (P : Type 0) : Type 0 where
  pub id : ℕ
  pub time : ℕ
  pub params : P

pub record Table (P : Type 0) : Type 0 where
  pub rows : List (Row P)
  pub next_id : ℕ

-- `same_key` is the equality of the columns of the table's natural key.
module _ {P : Type 0} (same_key : P → P → Bool) where
  -- the first row that `_NATURAL_KEY_WHERE` finds
  unfoldable pub select_in : List (Row P) → P → Option (Row P)
  select_in [] params = none
  select_in (r ∷ rows) params = if same_key r.params params then some r else select_in rows params

  -- `_SELECT_EXISTING_SQL`, and `_GET_SQL`
  abbrev pub select_existing : Table P → P → Option (Row P)
  select_existing t params = select_in t.rows params

  -- the row that is inserted
  abbrev pub fresh_row : ℕ → Table P → P → Row P
  fresh_row now t params = record { id = t.next_id; time = now; params = params }

  -- `_UPSERT_SQL`: the id is drawn from the sequence before the conflict is found.
  unfoldable pub insert_absent : ℕ → Table P → P → Table P × Option (Row P)
  unfolding select_in
  insert_absent now t params = elim (select_existing t params) [
    | none ↦ (
      record { rows = t.rows ++ (fresh_row now t params ∷ []); next_id = t.next_id + 1 },
      some (fresh_row now t params),
    )
    | some r ↦ (record t { next_id = t.next_id + 1 }, none)
  ]

  -- The table after the call, the row, and whether this call inserted it.
  unfoldable pub upsert_returning : ℕ → Table P → P → Table P × (Option (Row P) × Bool)
  unfolding insert_absent
  upsert_returning now t params =
      let (next, row) = insert_absent now t params in
      elim row [
        | none ↦ (next, (select_existing next params, false))
        | some r ↦ (next, (some r, true))
      ]
