-- ===== src/Db/Kept.antt =====
-- What an upsert leaves of the rows that were there.
use gis_vector_map_changes.Prelude.{
  ℕ, List, [], ◌∷◌, ◌++◌, Bool, true, none, some, ◌≡◌, refl, sym, ap, ◌∙◌, inl, inr, Bool-cases,
  Option-cases,
}
use gis_vector_map_changes.Db.{Row, Table, select_in, select_existing, upsert_returning, fresh_row}
use gis_vector_map_changes.Db.Idempotent.{KeyLaw, upsert-missing, upsert-found, some_injective}

module _ {P : Type 0} (same_key : P → P → Bool) (law : KeyLaw same_key) where
  select_in-agree :
      (rows : List (Row P)) (p q : P)
      → same_key p q ≡ true
      → select_in same_key rows p ≡ select_in same_key rows q
  unfolding select_in
  select_in-agree [] p q h = refl
  select_in-agree (r ∷ rows) p q h = rw (law.agree p q r.params h, select_in-agree rows p q h) refl

  pub select_existing-agree :
      (t : Table P) (p q : P)
      → same_key p q ≡ true
      → select_existing same_key t p ≡ select_existing same_key t q
  select_existing-agree t p q h = select_in-agree t.rows p q h

  select_in-append_found :
      (rows more : List (Row P)) (p : P) (r : Row P)
      → select_in same_key rows p ≡ some r
      → select_in same_key (rows ++ more) p ≡ some r
  unfolding select_in
  select_in-append_found [] more p r h = cc
  select_in-append_found (q ∷ rows) more p r h = elim (Bool-cases (same_key q.params p)) [
    | inl found ↦ rw found (sym (rw found refl) ∙ h)
    | inr other ↦ rw other (select_in-append_found rows more p r (sym (rw other refl) ∙ h))
  ]

  -- A row that a lookup finds is found after an upsert of any key.
  pub upsert_returning-kept :
      (now : ℕ) (t : Table P) (p q : P) (r : Row P)
      → select_existing same_key t q ≡ some r
      → select_existing same_key (upsert_returning same_key now t p).0 q ≡ some r
  upsert_returning-kept now t p q r h = elim (Option-cases (select_existing same_key t p)) [
    | inl missing ↦
        rw (upsert-missing same_key law now t p missing) (select_in-append_found t.rows _ q r h)
    | inr (s, found) ↦ rw (upsert-found same_key law now t p s found) h
  ]

  -- A key that is missing gets the parameters that it is inserted with.
  pub upsert_returning-fresh :
      (now : ℕ) (t : Table P) (p : P) (r : Row P)
      → select_existing same_key t p ≡ none
      → (upsert_returning same_key now t p).1.0 ≡ some r
      → (r.params ≡ p) × ((upsert_returning same_key now t p).1.1 ≡ true)
  upsert_returning-fresh now t p r missing first =
      let inserted = upsert-missing same_key law now t p missing in
      (
        ap (λ x. x.params)
            (some_injective same_key law {r = r} {q = fresh_row same_key now t p}
              (sym first ∙ rw inserted refl)),
        rw inserted refl,
      )
