-- ===== src/Dags/Task.antt =====
-- A task of a DAG: it may raise, and what it wrote before stays written.
use gis_vector_map_changes.Prelude.{
  Bool, true, false, Result, ok, err, Error, Option, none, some, err≢ok, ◌≡◌, refl, ap,
}

abbrev pub Task : Type 0 → Type 0 → Type 0
Task S A = S → Result A × S

module _ {S A : Type 0} where
  abbrev pub pure : A → Task S A
  pure a s = (ok a, s)

  -- code that changes no state
  abbrev pub lift : Result A → Task S A
  lift m s = (m, s)

  -- `if value is None: raise`
  abbrev pub or_raise : Option A → Error → Task S A
  or_raise none e s = (err e, s)
  or_raise (some a) e s = (ok a, s)

-- `if not test: raise`
abbrev pub ensure : {S : Type 0} → Bool → Error → Task S (Unit {0})
ensure true e s = (ok tt, s)
ensure false e s = (err e, s)

-- what runs after a value, and not after an exception
abbrev pub continue : {S A B : Type 0} → Result A × S → (A → Task S B) → Result B × S
continue (ok a, s) f = f a s
continue (err e, s) f = (err e, s)

infixl 5 ◌>>=◌ ◌>>◌
abbrev pub ◌>>=◌ : {S A B : Type 0} → Task S A → (A → Task S B) → Task S B
◌>>=◌ m f s = continue (m s) f

abbrev pub ◌>>◌ : {S A B : Type 0} → Task S A → Task S B → Task S B
m >> k = m >>= λ _. k

module _ {S A B : Type 0} where
  continue_parts :
      (p : Result A × S) (end : S) (f : A → Task S B) {b : B}
      → continue p f ≡ (ok b, end)
      → (a : A) × (next : S) × (p ≡ (ok a, next)) × (f a next ≡ (ok b, end))
  continue_parts (ok a, next) end f h = (a, next, refl, h)
  continue_parts (err e, next) end f h = absurd (err≢ok {e = e} (ap (λ p. p.0) h))

  -- Where a task returned, its first part did, and so did what runs after it, in the state that the first left.
  pub task_parts :
      (m : Task S A) (f : A → Task S B) (s end : S) {b : B}
      → (m >>= f) s ≡ (ok b, end)
      → (a : A) × (next : S) × (m s ≡ (ok a, next)) × (f a next ≡ (ok b, end))
  task_parts m f s end h = continue_parts (m s) end f h
