-- ===== src/Matching/Pipeline/Counts.antt =====
-- The counts of a changeset add up.
use gis_vector_map_changes.Prelude.{
  ℕ, suc, ◌+◌, String, List, [], ◌∷◌, some, Dict, keys, lookup, insert, In, length, ok, arith, ◌≡◌,
  refl, eq_iff, ◌==◌, if◌then◌else◌, lookup-insert, count-keys-insert, lookup_of_In,
  index_of_lookup, sym, ap, ◌∙◌, Bool-cases, inl, inr,
}
use native.Mathlib.Nat.{add-zero, zero-add}
use gis_vector_map_changes.Shapely.{Shapely}
use gis_vector_map_changes.Matching.Changeset.Records.{
  Classification, unchanged, ChangeRecord, classifications, classification_text,
}
use gis_vector_map_changes.Matching.Pipeline.{zeros, count_records}

module _ (lib : Shapely) where
  abbrev text_of : ChangeRecord lib → String
  text_of r = classification_text r.classification

  -- how many records have the classification of this name
  abbrev pub number : String → List (ChangeRecord lib) → ℕ
  number k [] = 0
  number k (r ∷ rs) = let rest = number k rs in if k == text_of r then suc rest else rest

  count_from :
      (counts : Dict ℕ) (rs : List (ChangeRecord lib))
      → ((c : Classification) → In (classification_text c) (keys counts))
      → (final : Dict ℕ) × (count_records lib counts rs ≡ ok final)
        × ((k : String) (n : ℕ)
            → lookup k counts ≡ some n
            → lookup k final ≡ some (n + number k rs))
  unfolding count_records
  count_from counts [] known = (counts, refl, λ k n h. rw (add-zero n) h)
  count_from counts (r ∷ rs) known =
      let (n, found) = lookup_of_In (text_of r) counts (known r.classification) in
      let next = insert (text_of r) (n + 1) counts in
      let (final, run, adds) = count_from next rs (λ c.
        ground
          (arith, known c, count-keys-insert (text_of r) (classification_text c) (n + 1) counts)) in
      (
        final,
        rw (index_of_lookup (text_of r) counts n found) run,
        λ k m h. elim (Bool-cases (k == text_of r)) [
          | inl same ↦
              let key = (eq_iff k (text_of r)).0 same in
              let before : some n ≡ some m = sym found ∙ ap (λ j. lookup j counts) (sym key) ∙ h in
              let stored = adds k (n + 1) (rw (lookup-insert, same)) in
              rw (same, stored) (ground arith)
          | inr other ↦ rw other (adds k m (rw (lookup-insert, other) h))
        ],
      )

  -- one for the classification of this name
  abbrev unit : String → Classification → ℕ
  unit k c = if k == classification_text c then 1 else 0

  unit_sum :
      (c : Classification)
      → unit "unchanged" c
          + unit "modified_geometry" c
          + unit "modified_attributes" c
          + unit "modified_geometry_and_attributes" c
          + unit "added" c
          + unit "removed" c
          + unit "ambiguous" c
        ≡ 1
  unfolding classification_text
  unit_sum unchanged = refl
  unit_sum _ = refl

  number_cons :
      (k : String) (r : ChangeRecord lib) (rs : List (ChangeRecord lib))
      → number k (r ∷ rs) ≡ unit k r.classification + number k rs
  number_cons k r rs = ground arith

  -- Each record has one of the seven classifications.
  number_sum :
      (rs : List (ChangeRecord lib))
      → number "unchanged" rs
          + number "modified_geometry" rs
          + number "modified_attributes" rs
          + number "modified_geometry_and_attributes" rs
          + number "added" rs
          + number "removed" rs
          + number "ambiguous" rs
        ≡ length rs
  number_sum [] = refl
  number_sum (r ∷ rs) = omega (
    arith,
    number_cons "unchanged" r rs,
    number_cons "modified_geometry" r rs,
    number_cons "modified_attributes" r rs,
    number_cons "modified_geometry_and_attributes" r rs,
    number_cons "added" r rs,
    number_cons "removed" r rs,
    number_cons "ambiguous" r rs,
    unit_sum r.classification,
    number_sum rs,
  )

  known_zeros : (c : Classification) → In (classification_text c) (keys (zeros classifications))
  unfolding zeros classification_text
  known_zeros unchanged = omega arith
  known_zeros _ = omega arith

  lookup-zeros :
      (c : Classification) → lookup (classification_text c) (zeros classifications) ≡ some 0
  unfolding zeros classification_text lookup
  lookup-zeros unchanged = refl
  lookup-zeros _ = refl

  -- Counting the records of a changeset raises nothing; the count of each classification is the number
  -- of the records that have it, and the seven numbers add up to the number of all records.
  pub count_records_correct :
      (rs : List (ChangeRecord lib))
      → (counts : Dict ℕ) × (count_records lib (zeros classifications) rs ≡ ok counts)
        × ((c : Classification)
            → lookup (classification_text c) counts ≡ some (number (classification_text c) rs))
        × (number "unchanged" rs
              + number "modified_geometry" rs
              + number "modified_attributes" rs
              + number "modified_geometry_and_attributes" rs
              + number "added" rs
              + number "removed" rs
              + number "ambiguous" rs
            ≡ length rs)
  count_records_correct rs =
      let (final, run, adds) = count_from (zeros classifications) rs known_zeros in
      (
        final,
        run,
        λ c. rw (adds (classification_text c) 0 (lookup-zeros c)) (rw zero-add),
        number_sum rs,
      )
