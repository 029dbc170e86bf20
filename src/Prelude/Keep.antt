-- ===== src/Prelude/Keep.antt =====
-- How `keep` goes with `++`, `map` and itself.
use mathlib.Core.Path.{◌≡◌, refl, sym, ◌∙◌}
use mathlib.Core.Bool.{Bool, true, false, not, false≢true}
use mathlib.Core.List.{List, [], ◌∷◌, ◌++◌, map}
use mathlib.Core.Logic.{inl, inr}
use package.gis_vector_map_changes.Prelude.Tests.{Bool-cases}
use package.gis_vector_map_changes.Prelude.Lists.{keep, any, length, All}

module _ {ℓ} {A : Type ℓ} (p : A → Bool) where
  pub keep-append : (xs ys : List A) → keep p (xs ++ ys) ≡ keep p xs ++ keep p ys
  keep-append [] ys = refl
  keep-append (x ∷ xs) ys = elim (Bool-cases (p x)) [
    | inl kept ↦ rw (kept, keep-append xs ys) refl
    | inr dropped ↦ rw (dropped, keep-append xs ys) refl
  ]

  pub keep-keep : (xs : List A) → keep p (keep p xs) ≡ keep p xs
  keep-keep [] = refl
  keep-keep (x ∷ xs) = elim (Bool-cases (p x)) [
    | inl kept ↦ rw (kept, keep-keep xs) (rw kept refl)
    | inr dropped ↦ rw (dropped, keep-keep xs) refl
  ]

  pub keep-keep-not : (xs : List A) → keep (λ x. not (p x)) (keep p xs) ≡ []
  keep-keep-not [] = refl
  keep-keep-not (x ∷ xs) = elim (Bool-cases (p x)) [
    | inl kept ↦ rw (kept, keep-keep-not xs) (rw kept refl)
    | inr dropped ↦ rw (dropped, keep-keep-not xs) refl
  ]

  pub keep-not-keep : (xs : List A) → keep p (keep (λ x. not (p x)) xs) ≡ []
  keep-not-keep [] = refl
  keep-not-keep (x ∷ xs) = elim (Bool-cases (p x)) [
    | inl kept ↦ rw (kept, keep-not-keep xs) refl
    | inr dropped ↦ rw (dropped, keep-not-keep xs) (rw dropped refl)
  ]

module _ {ℓ κ} {A : Type ℓ} {B : Type κ} (p : B → Bool) (f : A → B) where
  pub keep-map_all : ((x : A) → p (f x) ≡ true) → (xs : List A) → keep p (map f xs) ≡ map f xs
  keep-map_all h [] = refl
  keep-map_all h (x ∷ xs) = rw (h x, keep-map_all h xs) refl

  pub keep-map_none : ((x : A) → p (f x) ≡ false) → (xs : List A) → keep p (map f xs) ≡ []
  keep-map_none h [] = refl
  keep-map_none h (x ∷ xs) = rw (h x, keep-map_none h xs) refl

  pub length-map : (xs : List A) → length (map f xs) ≡ length xs
  length-map [] = refl
  length-map (x ∷ xs) = rw (length-map xs) refl

-- A test that no element fails holds of all of them.
pub All-any {ℓ} :
    {A : Type ℓ} (p : A → Bool) (xs : List A)
    → not (any (λ x. not (p x)) xs) ≡ true
    → All (λ x. p x ≡ true) xs
All-any p [] h = tt
All-any p (x ∷ xs) h = elim (Bool-cases (p x)) [
  | inl holds ↦ (holds, All-any p xs (sym (rw holds refl) ∙ h))
  | inr fails ↦ absurd (false≢true (sym (rw fails refl) ∙ h))
]

pub any-All {ℓ} :
    {A : Type ℓ} (p : A → Bool) (xs : List A)
    → All (λ x. p x ≡ true) xs
    → not (any (λ x. not (p x)) xs) ≡ true
any-All p [] h = refl
any-All p (x ∷ xs) h = rw (h.0) (any-All p xs h.1)
