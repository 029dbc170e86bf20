-- ===== src/Db/Idempotent.antt =====
-- An upsert inserts a row once, and finds it again.
use gis_vector_map_changes.Prelude.{
  ℕ, ◌+◌, ◌≤◌, List, [], ◌∷◌, ◌++◌, Bool, true, false, Option, none, some, arith, ◌≡◌, refl, sym,
  ◌∙◌, inl, inr, Bool-cases, Option-cases, if◌then◌else◌, subst, ◌↔◌, false≢true,
}
use gis_vector_map_changes.Db.{
  Row, Table, select_in, select_existing, fresh_row, insert_absent, upsert_returning,
}

-- `same_key` compares the columns of a key.
pub record KeyLaw {P : Type 0} (same_key : P → P → Bool) : Type 0 where
  pub same : (p : P) → same_key p p ≡ true
  pub agree : (p q r : P) → same_key p q ≡ true → same_key r p ≡ same_key r q

module _ {P : Type 0} (same_key : P → P → Bool) (law : KeyLaw same_key) where
  abbrev same_rows : Row P → P → ℕ
  same_rows r p = if same_key r.params p then 1 else 0

  -- how many rows have this key
  abbrev pub number_of : List (Row P) → P → ℕ
  number_of [] p = 0
  number_of (r ∷ rows) p = same_rows r p + number_of rows p

  -- The ids are below the next one and grow, and no key stands in two rows.
  abbrev pub IsAbove : ℕ → List (Row P) → ℕ → Type 0
  IsAbove low [] next = low ≤ next
  IsAbove low (r ∷ rows) next = (low ≤ r.id) × IsAbove (r.id + 1) rows next

  pub record IsTable (t : Table P) : Type 0 where
    pub ids : IsAbove 0 t.rows t.next_id
    pub unique : (p : P) → number_of t.rows p ≤ 1

  some≢none : {r : Row P} → some r ≡ none → ⊥
  some≢none h = cc

  found_none :
      (b : Bool) (r : Row P) (other : Option (Row P))
      → b ≡ true
      → (if b then some r else other) ≡ none
      → ⊥
  found_none b r other h e = ground arith

  pub some_injective : {r q : Row P} → some r ≡ some q → r ≡ q
  some_injective h = cc

  pub select_in-append :
      (rows : List (Row P)) (r : Row P) (p : P)
      → select_in same_key rows p ≡ none
      → select_in same_key (rows ++ (r ∷ [])) p ≡ (if same_key r.params p then some r else none)
  unfolding select_in
  select_in-append [] r p h = refl
  select_in-append (q ∷ rows) r p h = elim (Bool-cases (same_key q.params p)) [
    | inl found ↦ absurd (found_none (same_key q.params p) q (select_in same_key rows p) found h)
    | inr other ↦ rw other (select_in-append rows r p (sym (rw other refl) ∙ h))
  ]

  number_of-append :
      (rows : List (Row P)) (r : Row P) (p : P)
      → number_of (rows ++ (r ∷ [])) p ≡ number_of rows p + same_rows r p
  number_of-append [] r p = omega arith
  number_of-append (q ∷ rows) r p = omega (arith, number_of-append rows r p)

  IsAbove-append :
      (low : ℕ) (rows : List (Row P)) (r : Row P) (next : ℕ)
      → IsAbove low rows next
      → r.id ≡ next
      → IsAbove low (rows ++ (r ∷ [])) (next + 1)
  IsAbove-append low [] r next h e = omega arith
  IsAbove-append low (q ∷ rows) r next h e = (h.0, IsAbove-append (q.id + 1) rows r next h.1 e)

  number_of-select_in :
      (rows : List (Row P)) (p : P) → select_in same_key rows p ≡ none → number_of rows p ≡ 0
  unfolding select_in
  number_of-select_in [] p h = refl
  number_of-select_in (q ∷ rows) p h = elim (Bool-cases (same_key q.params p)) [
    | inl found ↦ absurd (found_none (same_key q.params p) q (select_in same_key rows p) found h)
    | inr other ↦ rw other (omega (arith, number_of-select_in rows p (sym (rw other refl) ∙ h)))
  ]

  number_of-agree :
      (rows : List (Row P)) (p q : P) → same_key p q ≡ true → number_of rows p ≡ number_of rows q
  number_of-agree [] p q h = refl
  number_of-agree (r ∷ rows) p q h = rw (law.agree p q r.params h, number_of-agree rows p q h)

  select_in-key :
      (rows : List (Row P)) (p : P) (r : Row P)
      → select_in same_key rows p ≡ some r
      → same_key r.params p ≡ true
  unfolding select_in
  select_in-key [] p r h = absurd (some≢none (sym h))
  select_in-key (q ∷ rows) p r h = elim (Bool-cases (same_key q.params p)) [
    | inl found ↦
        let e : q ≡ r = some_injective (sym (rw found refl) ∙ h) in
        subst (λ x. same_key x.params p ≡ true) e found
    | inr other ↦ select_in-key rows p r (sym (rw other refl) ∙ h)
  ]

  one_row : (b : Bool) → b ≡ true → ◌≡◌ {A = ℕ} (if b then 1 else 0) 1
  one_row b h = ground arith

  no_row : (b : Bool) → b ≡ false → ◌≡◌ {A = ℕ} (if b then 1 else 0) 0
  no_row b h = ground arith

  abbrev pub added : ℕ → Table P → P → Table P
  added now t p = record {
    rows = t.rows ++ (fresh_row same_key now t p ∷ []);
    next_id = t.next_id + 1;
  }

  insert-missing :
      (now : ℕ) (t : Table P) (p : P)
      → select_existing same_key t p ≡ none
      → insert_absent same_key now t p ≡ (added now t p, some (fresh_row same_key now t p))
  unfolding insert_absent
  insert-missing now t p h = rw (insert_absent, h) refl

  insert-found :
      (now : ℕ) (t : Table P) (p : P) (r : Row P)
      → select_existing same_key t p ≡ some r
      → insert_absent same_key now t p ≡ (record t { next_id = t.next_id + 1 }, none)
  unfolding insert_absent
  insert-found now t p r h = rw (insert_absent, h) refl

  pub upsert-missing :
      (now : ℕ) (t : Table P) (p : P)
      → select_existing same_key t p ≡ none
      → upsert_returning same_key now t p
        ≡ (added now t p, (some (fresh_row same_key now t p), true))
  unfolding upsert_returning
  upsert-missing now t p h =
      rw (upsert_returning, insert-missing now t p h) (rw (insert-missing now t p h) refl)

  pub upsert-found :
      (now : ℕ) (t : Table P) (p : P) (r : Row P)
      → select_existing same_key t p ≡ some r
      → upsert_returning same_key now t p ≡ (record t { next_id = t.next_id + 1 }, (some r, false))
  unfolding upsert_returning
  upsert-found now t p r h =
      rw (upsert_returning, insert-found now t p r h) (rw (insert-found now t p r h) (rw h refl))

  IsAbove-later :
      (low : ℕ) (rows : List (Row P)) (next : ℕ)
      → IsAbove low rows next
      → IsAbove low rows (next + 1)
  IsAbove-later low [] next h = omega arith
  IsAbove-later low (q ∷ rows) next h = (h.0, IsAbove-later (q.id + 1) rows next h.1)

  fresh-IsTable :
      (now : ℕ) (t : Table P) (p : P)
      → IsTable t
      → select_existing same_key t p ≡ none
      → IsTable
          (record { rows = t.rows ++ (fresh_row same_key now t p ∷ []); next_id = t.next_id + 1 })
  fresh-IsTable now t p h none' = record {
    ids = IsAbove-append 0 t.rows (fresh_row same_key now t p) t.next_id h.ids refl;
    unique = λ q. elim (Bool-cases (same_key p q)) [
      | inl same ↦ omega (
        arith,
        number_of-append t.rows (fresh_row same_key now t p) q,
        number_of-agree t.rows p q same,
        number_of-select_in t.rows p none',
        one_row (same_key p q) same,
      )
      | inr other ↦ omega (
        arith,
        number_of-append t.rows (fresh_row same_key now t p) q,
        h.unique q,
        no_row (same_key p q) other,
      )
    ];
  }

  -- Two calls with one natural key, one after the other.
  pub record Twice (now later : ℕ) (t : Table P) (p : P) : Type 0 where
    pub row : Row P
    -- the first call returns a row with this key
    pub first : (upsert_returning same_key now t p).1.0 ≡ some row
    pub key : same_key row.params p ≡ true
    -- which a lookup finds afterwards
    pub stored : select_existing same_key (upsert_returning same_key now t p).0 p ≡ some row
    -- it tells whether the row is new
    pub created :
        ((upsert_returning same_key now t p).1.1 ≡ true) ↔ (select_existing same_key t p ≡ none)
    -- the second call returns the same row, as one that exists, and adds none
    pub again :
        (upsert_returning same_key later (upsert_returning same_key now t p).0 p).1
        ≡ (some row, false)
    pub kept :
        (upsert_returning same_key later (upsert_returning same_key now t p).0 p).0.rows
        ≡ (upsert_returning same_key now t p).0.rows
    -- no key gets a second row, and the ids keep growing
    pub table : IsTable (upsert_returning same_key now t p).0

  -- In a table whose natural key is unique, `upsert_returning` returns the row of its natural key, which
  -- a lookup finds afterwards, and tells whether it is new, keeps the key unique and the ids growing, and a second call returns the
  -- same row as an existing one and adds none.
  pub upsert_returning-Twice :
      (now later : ℕ) (t : Table P) (p : P) → IsTable t → Twice now later t p
  upsert_returning-Twice now later t p h = elim (Option-cases (select_existing same_key t p)) [
    | inl missing ↦
        let first = upsert-missing now t p missing in
        let there : select_existing same_key (added now t p) p ≡ some (fresh_row same_key now t p) =
          select_in-append t.rows (fresh_row same_key now t p) p missing ∙ rw (law.same p) refl in
        let again = upsert-found later (added now t p) p (fresh_row same_key now t p) there in
        record {
          row = fresh_row same_key now t p;
          first = rw first refl;
          key = law.same p;
          stored = rw first there;
          created = (λ e. missing, λ e. rw first refl);
          again = rw first (rw again refl);
          kept = rw first (rw again refl);
          table = rw first (fresh-IsTable now t p h missing);
        }
    | inr (r, found) ↦
        let first = upsert-found now t p r found in
        let again = upsert-found later (record t { next_id = t.next_id + 1 }) p r found in
        record {
          row = r;
          first = rw first refl;
          key = select_in-key t.rows p r found;
          stored = rw first found;
          created = (
            λ e. absurd (false≢true (sym (rw first refl) ∙ e)),
            λ e. absurd (some≢none (sym found ∙ e)),
          );
          again = rw first (rw again refl);
          kept = rw first (rw again refl);
          table =
              rw first (record { ids = IsAbove-later 0 t.rows t.next_id h.ids; unique = h.unique });
        }
  ]
