-- ===== src/Prelude/Sorted.antt =====
-- Sorting by a number.
use Prim.Native.Nat.{ℕ, ◌≤◌}
use mathlib.Core.Path.{◌≡◌, refl}
use mathlib.Core.Bool.{Bool}
use mathlib.Core.Logic.{inl, inr}
use mathlib.Core.List.{List, [], ◌∷◌}
use native.Mathlib.Omega.{arith}
use package.gis_vector_map_changes.Prelude.Tests.{leb, Bool-cases}
use package.gis_vector_map_changes.Prelude.Lists.{All, keep, length}
use package.gis_vector_map_changes.Prelude.Sort.{place, sort}

module _ {ℓ} {A : Type ℓ} (key : A → ℕ) where
  -- `a` comes no later than `b`
  abbrev pub no_later : A → A → Bool
  no_later a b = leb (key a) (key b)

  -- Each element comes no later than those after it.
  abbrev pub Ascending : List A → Type 0
  Ascending [] = Unit
  Ascending (x ∷ xs) = All (λ y. key x ≤ key y) xs × Ascending xs

  All-later :
      (a b : A) (xs : List A)
      → key a ≤ key b
      → All (λ y. key b ≤ key y) xs
      → All (λ y. key a ≤ key y) xs
  All-later a b [] h all = tt
  All-later a b (x ∷ xs) h all = (omega (arith, all.0), All-later a b xs h all.1)

  All-place :
      (a b : A) (xs : List A)
      → key b ≤ key a
      → All (λ y. key b ≤ key y) xs
      → All (λ y. key b ≤ key y) (place no_later a xs)
  unfolding place
  All-place a b [] h all = (h, tt)
  All-place a b (x ∷ xs) h all = elim (Bool-cases (leb (key a) (key x))) [
    | inl before ↦ rw before (h, all)
    | inr behind ↦ rw behind (all.0, All-place a b xs h all.1)
  ]

  place-Ascending : (a : A) (xs : List A) → Ascending xs → Ascending (place no_later a xs)
  unfolding place
  place-Ascending a [] h = (tt, tt)
  place-Ascending a (x ∷ xs) h = elim (Bool-cases (leb (key a) (key x))) [
    | inl before ↦ rw before (((ground arith), All-later a x xs (ground arith) h.0), h)
    | inr behind ↦ rw behind (All-place a x xs (ground arith) h.0, place-Ascending a xs h.1)
  ]

  pub sort-Ascending : (xs : List A) → Ascending (sort no_later xs)
  unfolding sort
  sort-Ascending [] = tt
  sort-Ascending (x ∷ xs) = place-Ascending x (sort no_later xs) (sort-Ascending xs)

module _ {ℓ} {A : Type ℓ} (le : A → A → Bool) (p : A → Bool) where
  length-keep-place :
      (a : A) (xs : List A) → length (keep p (place le a xs)) ≡ length (keep p (a ∷ xs))
  unfolding place
  length-keep-place a [] = refl
  length-keep-place a (x ∷ xs) = ground (arith, length-keep-place a xs)

  -- Sorting keeps the number of the elements of any kind.
  pub length-keep-sort : (xs : List A) → length (keep p (sort le xs)) ≡ length (keep p xs)
  unfolding sort
  length-keep-sort [] = refl
  length-keep-sort (x ∷ xs) = ground (arith, length-keep-place x (sort le xs), length-keep-sort xs)
