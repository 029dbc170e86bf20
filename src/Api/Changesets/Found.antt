-- ===== src/Api/Changesets/Found.antt =====
-- Which changeset is answered.
use gis_vector_map_changes.Prelude.{
  ℕ, ◌+◌, ◌≤◌, ◌<◌, String, List, [], ◌∷◌, keep, false, Option, none, some, ok, err, http_exception,
  eqb, flat_map, All, arith, ◌≡◌, refl, ap, ◌∙◌, inl, inr, Bool-cases, if◌then◌else◌, ◌⊎◌,
}
use gis_vector_map_changes.Db.{Row, Table}
use gis_vector_map_changes.Db.Snapshots.{SnapshotParams}
use gis_vector_map_changes.Db.Changesets.{ChangesetParams}
use gis_vector_map_changes.Api.Changesets.{
  ChangesetSelect, with_id, changeset_select, one, changeset_payload, get_changeset_payload,
}

-- the row with this id
abbrev pub find_id : {P : Type 0} → List (Row P) → ℕ → Option (Row P)
find_id [] id = none
find_id (r ∷ rows) id = if eqb r.id id then some r else find_id rows id

abbrev pub listed : {A : Type 0} → Option A → List A
listed none = []
listed (some a) = a ∷ []

-- The ids of the rows grow, from `low` on.
abbrev pub Grows : {P : Type 0} → ℕ → List (Row P) → Type 0
Grows low [] = Unit
Grows low (r ∷ rows) = (low ≤ r.id) × Grows (r.id + 1) rows

module _ {P : Type 0} where
  with_id-below :
      (low id : ℕ) (rows : List (Row P)) → Grows low rows → id < low → with_id id rows ≡ []
  unfolding with_id
  with_id-below low id [] h below = refl
  with_id-below low id (r ∷ rows) h below =
      let rest = with_id-below (r.id + 1) id rows h.1 (omega (arith, h.0)) in
      let other : eqb r.id id ≡ false = ground (arith, h.0) in rw other rest

  -- Where the ids grow, at most one row has an id.
  with_id-find_id :
      (low id : ℕ) (rows : List (Row P))
      → Grows low rows
      → with_id id rows ≡ listed (find_id rows id)
  unfolding with_id
  with_id-find_id low id [] h = refl
  with_id-find_id low id (r ∷ rows) h = elim (Bool-cases (eqb r.id id)) [
    | inl same ↦ rw same (ap (λ l. r ∷ l) (with_id-below (r.id + 1) id rows h.1 (ground arith)))
    | inr other ↦ rw other (with_id-find_id (r.id + 1) id rows h.1)
  ]

-- A row of the changesets, and the rows of its two snapshots.
pub record IsJoined (snapshots : List (Row SnapshotParams)) (row : ChangesetSelect) : Type 0 where
  pub a_found : find_id snapshots row.changeset.params.snapshot_a_id ≡ some row.snapshot_a
  pub b_found : find_id snapshots row.changeset.params.snapshot_b_id ≡ some row.snapshot_b

-- The foreign keys: the snapshots of each changeset are stored.
abbrev pub Refers : List (Row SnapshotParams) → List (Row ChangesetParams) → Type 0
Refers snapshots = All (λ c.
    (sa : Row SnapshotParams) × (sb : Row SnapshotParams) × (find_id snapshots
        c.params.snapshot_a_id
      ≡ some sa)
    × (find_id snapshots c.params.snapshot_b_id ≡ some sb))

module _ (snapshots : List (Row SnapshotParams)) (grows : Grows 0 snapshots) where
  -- the rows of the select with this changeset id
  abbrev rows_with : ℕ → List (Row ChangesetParams) → List ChangesetSelect
  rows_with id changesets =
      keep (λ p. eqb p.changeset.id id) (changeset_select changesets snapshots)

  select-cons :
      (c : Row ChangesetParams) (changesets : List (Row ChangesetParams))
      (sa sb : Row SnapshotParams)
      → find_id snapshots c.params.snapshot_a_id ≡ some sa
      → find_id snapshots c.params.snapshot_b_id ≡ some sb
      → changeset_select (c ∷ changesets) snapshots
        ≡ record { changeset = c; snapshot_a = sa; snapshot_b = sb }
          ∷ changeset_select changesets snapshots
  unfolding changeset_select flat_map
  select-cons c changesets sa sb found_a found_b =
      rw
        (
          with_id-find_id 0 c.params.snapshot_a_id snapshots grows,
          with_id-find_id 0 c.params.snapshot_b_id snapshots grows,
          found_a,
          found_b,
        )
        refl

  rows_with-below :
      (low id : ℕ) (changesets : List (Row ChangesetParams))
      → Refers snapshots changesets
      → Grows low changesets
      → id < low
      → rows_with id changesets ≡ []
  unfolding changeset_select flat_map
  rows_with-below low id [] refers h below = refl
  rows_with-below low id (c ∷ changesets) refers h below =
      let (sa, sb, found_a, found_b) = refers.0 in
      let other : eqb c.id id ≡ false = ground (arith, h.0) in
      ap (keep (λ p. eqb p.changeset.id id)) (select-cons c changesets sa sb found_a found_b)
      ∙ rw other (rows_with-below (c.id + 1) id changesets refers.1 h.1 (omega (arith, h.0)))

  -- The select has one row for a changeset with the id, and none without one.
  rows_with-find_id :
      (low id : ℕ) (changesets : List (Row ChangesetParams))
      → Refers snapshots changesets
      → Grows low changesets
      → ((find_id changesets id ≡ none) × (rows_with id changesets ≡ []))
        ⊎ ((row : ChangesetSelect) × (find_id changesets id ≡ some row.changeset)
            × IsJoined snapshots row
            × (rows_with id changesets ≡ row ∷ []))
  unfolding changeset_select flat_map
  rows_with-find_id low id [] refers h = inl (refl, refl)
  rows_with-find_id low id (c ∷ changesets) refers h =
      let (sa, sb, found_a, found_b) = refers.0 in
      let row : ChangesetSelect = record { changeset = c; snapshot_a = sa; snapshot_b = sb } in
      let cons =
        ap (keep (λ p. eqb p.changeset.id id)) (select-cons c changesets sa sb found_a found_b) in
      elim (Bool-cases (eqb c.id id)) [
        | inl same ↦ inr (
          row,
          rw same refl,
          record { a_found = found_a; b_found = found_b },
          cons
              ∙ rw same (
                  ap (λ l. row ∷ l)
                    (rows_with-below (c.id + 1) id changesets refers.1 h.1 (ground arith))),
        )
        | inr other ↦ elim (rows_with-find_id (c.id + 1) id changesets refers.1 h.1) [
          | inl (missing, empty) ↦ inl (rw other missing, cons ∙ rw other empty)
          | inr (found, is_found, joined, only) ↦
              inr (found, rw other is_found, joined, cons ∙ rw other only)
        ]
      ]

-- Where the ids of the tables grow and the snapshots of each changeset are stored, a request for a changeset is
-- answered with the payload of the changeset of this id, joined with its two snapshots, or with 404 if there is none.
pub get_changeset_payload-find_id :
    (span : ℕ → ℕ → String) (changesets : Table ChangesetParams) (snapshots : Table SnapshotParams)
    (id : ℕ)
    → Grows 0 snapshots.rows
    → Grows 0 changesets.rows
    → Refers snapshots.rows changesets.rows
    → ((find_id changesets.rows id ≡ none)
        × (get_changeset_payload span changesets snapshots id ≡ err (http_exception 404)))
      ⊎ ((row : ChangesetSelect) × (find_id changesets.rows id ≡ some row.changeset)
          × IsJoined snapshots.rows row
          × (get_changeset_payload span changesets snapshots id ≡ ok (changeset_payload span row)))
unfolding get_changeset_payload one
get_changeset_payload-find_id span changesets snapshots id grows_a grows_b refers =
    elim (rows_with-find_id snapshots.rows grows_a 0 id changesets.rows refers grows_b) [
      | inl (missing, empty) ↦ inl (missing, rw (get_changeset_payload, empty) refl)
      | inr (row, found, joined, only) ↦
          inr (row, found, joined, rw (get_changeset_payload, only) refl)
    ]
