-- ===== src/Prelude/Sort.antt =====
-- Python's `sorted` (a stable sort), and the order of texts and of tuples of texts.
use Prim.Native.Nat.{◌+◌, Ordering}
use Prim.Native.String.{String, compare}
use mathlib.Core.Path.{◌≡◌, refl}
use mathlib.Core.Bool.{Bool}
use mathlib.Core.List.{List, [], ◌∷◌, ◌++◌}
use native.Mathlib.Omega.{arith}
use text.Mathlib.Text.{is_le}
use package.gis_vector_map_changes.Prelude.Tests.{if◌then◌else◌}
use package.gis_vector_map_changes.Prelude.Lists.{count, flat_map, count-append}

-- the first difference decides
abbrev pub first_difference : Ordering → Ordering → Ordering
first_difference Ordering.eq o = o
first_difference Ordering.lt o = Ordering.lt
first_difference Ordering.gt o = Ordering.gt

-- `a <= b` for texts
abbrev pub text_le : String → String → Bool
text_le a b = is_le (compare a b)

-- the comparison of two tuples of texts
abbrev pub compare_texts : List String → List String → Ordering
compare_texts [] [] = Ordering.eq
compare_texts [] (y ∷ ys) = Ordering.lt
compare_texts (x ∷ xs) [] = Ordering.gt
compare_texts (x ∷ xs) (y ∷ ys) = first_difference (compare x y) (compare_texts xs ys)

module _ {ℓ} {A : Type ℓ} (le : A → A → Bool) where
  unfoldable pub place : A → List A → List A
  place x [] = x ∷ []
  place x (y ∷ ys) = if le x y then x ∷ y ∷ ys else y ∷ place x ys

  -- `sorted(xs)`
  unfoldable pub sort : List A → List A
  unfolding place
  sort [] = []
  sort (x ∷ xs) = place x (sort xs)

module _ {ℓ} {A : Type ℓ} (le : A → A → Bool) (f : A → List String) (x : String) where
  count-place :
      (a : A) (xs : List A)
      → count x (flat_map f (place le a xs)) ≡ count x (f a) + count x (flat_map f xs)
  unfolding place flat_map
  count-place a [] = omega (arith, count-append x (f a) [])
  count-place a (b ∷ xs) = ground (
    arith,
    count-place a xs,
    count-append x (f a) (f b ++ flat_map f xs),
    count-append x (f b) (flat_map f xs),
    count-append x (f b) (flat_map f (place le a xs)),
  )

  -- Sorting keeps what the elements hold, taken together.
  pub count-flat_map-sort :
      (xs : List A) → count x (flat_map f (sort le xs)) ≡ count x (flat_map f xs)
  unfolding sort flat_map
  count-flat_map-sort [] = refl
  count-flat_map-sort (a ∷ xs) = omega (
    arith,
    count-place a (sort le xs),
    count-flat_map-sort xs,
    count-append x (f a) (flat_map f xs),
  )

count-place_text :
    (x a : String) (xs : List String) → count x (place text_le a xs) ≡ count x (a ∷ xs)
unfolding place
count-place_text x a [] = refl
count-place_text x a (b ∷ xs) = ground (arith, count-place_text x a xs)

-- Sorting texts keeps them.
pub count-sort : (x : String) (xs : List String) → count x (sort text_le xs) ≡ count x xs
unfolding sort
count-sort x [] = refl
count-sort x (a ∷ xs) = ground (arith, count-place_text x a (sort text_le xs), count-sort x xs)
