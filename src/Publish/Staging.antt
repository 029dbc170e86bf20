-- ===== src/Publish/Staging.antt =====
-- The replacement of the rows of one snapshot or changeset, whatever the table.
use gis_vector_map_changes.Prelude.{
  ℕ, List, ◌++◌, map, Bool, true, false, arith, ◌&&◌, not, Result, ok, err, db_error, Error, keep,
  length, ◌≡◌, refl, sym, ap, ◌∙◌, >>=-eq-ok, ok_injective, err≢ok, Bool-cases, inl, inr,
  keep-append, keep-keep, keep-map_none, append-nil, subst,
}
use gis_vector_map_changes.Publish.Tables.{dangles, load_via_staging, committed}

and_parts : (b c : Bool) → not b && c ≡ true → (b ≡ false) × (c ≡ true)
and_parts b c h = (ground arith, ground arith)

module _ {R S : Type 0} (deleted : R → Bool) (rows : Result (List S)) (insert : S → R)
    (refers : R → Bool) (accepts : List R → Bool) where
  abbrev load : List R → Result (List R × ℕ)
  load = load_via_staging deleted rows insert refers accepts

  -- what the DELETE leaves
  abbrev pub others : List R → List R
  others = keep (λ r. not (deleted r))

  -- What a load that is accepted has done.
  pub record Loaded (table after : List R) (written : ℕ) (staged : List S) : Type 0 where
    pub staged_rows : rows ≡ ok staged
    pub result : after ≡ others table ++ map insert staged
    pub number : written ≡ length staged
    pub referred : dangles refers (map insert staged) ≡ false
    pub accepted : accepts after ≡ true

  pub load_via_staging-Loaded :
      (table after : List R) (written : ℕ)
      → load table ≡ ok (after, written)
      → (staged : List S) × Loaded table after written staged
  unfolding load_via_staging
  load_via_staging-Loaded table after written run =
      let (staged, made, rest) = >>=-eq-ok rows _ run in
      elim (Bool-cases
        (not (dangles refers (map insert staged)) && accepts (others table ++ map insert staged))) [
          | inl fits ↦
              let same = ok_injective (sym (rw fits refl) ∙ rest) in
              (
                staged,
                record {
                  staged_rows = made;
                  result = ap (λ p. p.0) (sym same);
                  number = ap (λ p. p.1) (sym same);
                  referred = (and_parts _ _ fits).0;
                  accepted = subst (λ p. accepts p.0 ≡ true) same (and_parts _ _ fits).1;
                },
              )
          | inr violated ↦
              absurd (err≢ok {e = db_error "constraint violated"} (sym (rw violated refl) ∙ rest))
        ]

  pub Loaded-load_via_staging :
      (table after : List R) (written : ℕ) (staged : List S)
      → Loaded table after written staged
      → load table ≡ ok (after, written)
  unfolding load_via_staging
  Loaded-load_via_staging table after written staged l =
      let fits : accepts (others table ++ map insert staged) ≡ true =
        subst (λ t. accepts t ≡ true) l.result l.accepted in
      rw (l.staged_rows, l.referred, fits) (rw (l.result, l.number) refl)

  -- Loading the same rows again changes nothing.
  pub load_via_staging_again :
      ((s : S) → deleted (insert s) ≡ true)
      → (table after : List R) (written : ℕ) → load table ≡ ok (after, written)
      → load after ≡ ok (after, written)
  load_via_staging_again own table after written run =
      let (staged, l) = load_via_staging-Loaded table after written run in
      let kept : others after ≡ others table =
        ap others l.result
        ∙ keep-append (λ r. not (deleted r)) (others table) (map insert staged)
        ∙ rw
            (
              keep-keep (λ r. not (deleted r)) table,
              keep-map_none (λ r. not (deleted r)) insert (λ x. ap not (own x)) staged,
            )
            (append-nil (others table)) in
      Loaded-load_via_staging after after written staged (record {
        staged_rows = l.staged_rows;
        result = l.result ∙ ap (λ t. t ++ map insert staged) (sym kept);
        number = l.number;
        referred = l.referred;
        accepted = l.accepted;
      })

-- A call that is not committed leaves its table alone; what holds of a load that is accepted holds of a
-- call that returns.
pub committed-elim :
    {R : Type 0} (P : List R × Result ℕ → Type 0) (table : List R) (m : Result (List R × ℕ))
    → ((e : Error) → P (table, err e))
    → ((after : List R) (written : ℕ) → m ≡ ok (after, written) → P (after, ok written))
    → P (committed table m)
unfolding committed
committed-elim P table (ok (after, written)) raised returned = returned after written refl
committed-elim P table (err e) raised returned = raised e

-- A call that returns is committed.
pub committed-returns :
    {R : Type 0} (table : List R) (m : Result (List R × ℕ)) (written : ℕ)
    → (committed table m).1 ≡ ok written
    → m ≡ ok ((committed table m).0, written)
unfolding committed
committed-returns table (ok (after, n)) written h = ap (λ k. ok (after, k)) (ok_injective h)
committed-returns table (err e) written h = absurd (err≢ok {e = e} h)
