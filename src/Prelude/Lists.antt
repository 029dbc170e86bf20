-- ===== src/Prelude/Lists.antt =====
-- Lists over the native numbers, and how often a text stands in a list.
use Prim.Native.Nat.{ℕ, zero, suc, ◌+◌, ◌≤◌, ◌<◌}
use Prim.Native.String.{String}
use mathlib.Core.Path.{◌≡◌, refl}
use mathlib.Core.Logic.{◌⊎◌, inl, inr}
use mathlib.Core.Bool.{Bool, true, false}
use mathlib.Core.Option.{Option, none, some}
use mathlib.Core.List.{List, [], ◌∷◌, ◌++◌}
use native.Mathlib.Omega.{arith}
use text.Mathlib.Text.{◌==◌}
use text.Mathlib.TextEquality.{eq_iff}
use package.gis_vector_map_changes.Prelude.Tests.{ltb, eqb, if◌then◌else◌}

module _ {ℓ} {A : Type ℓ} where
  abbrev pub length : List A → ℕ
  length [] = 0
  length (x ∷ xs) = suc (length xs)

  -- `[x for x in xs if p(x)]`
  abbrev pub keep : (A → Bool) → List A → List A
  keep p [] = []
  keep p (x ∷ xs) = let rest = keep p xs in if p x then x ∷ rest else rest

  -- `any(p(x) for x in xs)`
  abbrev pub any : (A → Bool) → List A → Bool
  any p [] = false
  any p (x ∷ xs) = if p x then true else any p xs

  pub length-append : (xs ys : List A) → length (xs ++ ys) ≡ length xs + length ys
  length-append [] ys = omega arith
  length-append (x ∷ xs) ys = omega (arith, length-append xs ys)

  pub List-cases : (xs : List A) → (xs ≡ []) ⊎ ((x : A) × (rest : List A) × (xs ≡ x ∷ rest))
  List-cases [] = inl refl
  List-cases (x ∷ xs) = inr (x, xs, refl)

  -- `xs[i]`, or `none` out of range
  abbrev pub get_elem? : List A → ℕ → Option A
  get_elem? [] i = none
  get_elem? (x ∷ xs) zero = some x
  get_elem? (x ∷ xs) (suc i) = get_elem? xs i

module _ {ℓ κ} {A : Type ℓ} {B : Type κ} where
  unfoldable pub flat_map : (A → List B) → List A → List B
  flat_map f [] = []
  flat_map f (x ∷ xs) = f x ++ flat_map f xs

-- How often a text stands in a list.
abbrev pub count : String → List String → ℕ
count x [] = 0
count x (y ∷ ys) = let rest = count x ys in if x == y then suc rest else rest

-- How often a number stands in a list.
abbrev pub count_nat : ℕ → List ℕ → ℕ
count_nat i [] = 0
count_nat i (j ∷ js) = let rest = count_nat i js in if eqb i j then suc rest else rest

-- `x in xs`
abbrev pub contains : List String → String → Bool
contains xs x = ltb 0 (count x xs)

-- The text stands in the list.
abbrev pub In : String → List String → Type 0
In x xs = 0 < count x xs

-- No text stands in the list twice.
abbrev pub IsDistinct : List String → Type 0
IsDistinct xs = (x : String) → count x xs ≤ 1

pub count-append : (x : String) (xs ys : List String) → count x (xs ++ ys) ≡ count x xs + count x ys
count-append x [] ys = omega arith
count-append x (y ∷ xs) ys = ground (arith, count-append x xs ys)

pub contains→In : (x : String) (xs : List String) → contains xs x ≡ true → In x xs
contains→In x xs h = ground arith

pub In→contains : (x : String) (xs : List String) → In x xs → contains xs x ≡ true
In→contains x xs h = ground arith

pub count-keep :
    (p : String → Bool) (x : String) (xs : List String)
    → count x (keep p xs) ≡ (if p x then count x xs else 0)
count-keep p x [] = ground arith
count-keep p x (y ∷ ys) = ground (arith, count-keep p x ys, eq_iff x y)

pub count-flat_map-append {ℓ} :
    {A : Type ℓ} (f : A → List String) (x : String) (xs ys : List A)
    → count x (flat_map f (xs ++ ys)) ≡ count x (flat_map f xs) + count x (flat_map f ys)
unfolding flat_map
count-flat_map-append f x [] ys = omega arith
count-flat_map-append f x (a ∷ xs) ys = omega (
  arith,
  count-append x (f a) (flat_map f (xs ++ ys)),
  count-append x (f a) (flat_map f xs),
  count-flat_map-append f x xs ys,
)

pub get_elem?_of_lt {ℓ} :
    {A : Type ℓ} (xs : List A) (i : ℕ) → i < length xs → (x : A) × (get_elem? xs i ≡ some x)
get_elem?_of_lt [] i h = absurd (omega arith)
get_elem?_of_lt (x ∷ xs) zero h = (x, refl)
get_elem?_of_lt (x ∷ xs) (suc i) h = get_elem?_of_lt xs i (omega arith)

pub In-of_get_elem? : (xs : List String) (i : ℕ) (x : String) → get_elem? xs i ≡ some x → In x xs
In-of_get_elem? [] i x h = cc
In-of_get_elem? (y ∷ xs) zero x h = ground (arith, eq_iff x y)
In-of_get_elem? (y ∷ xs) (suc i) x h = ground (arith, In-of_get_elem? xs i x)

-- Every element of the list satisfies `P`.
abbrev pub All {ℓ κ} : {A : Type ℓ} → (A → Type κ) → List A → Type κ
All P [] = Unit
All P (x ∷ xs) = P x × All P xs

-- The two lists are as long, and their elements are related one by one.
abbrev pub All2 {ℓ κ} : {A : Type ℓ} {B : Type κ} → (A → B → Type 0) → List A → List B → Type 0
All2 R [] [] = Unit
All2 R [] (y ∷ ys) = ⊥
All2 R (x ∷ xs) [] = ⊥
All2 R (x ∷ xs) (y ∷ ys) = R x y × All2 R xs ys

pub All-of_In {ℓ} :
    (P : String → Type ℓ) (xs : List String) → ((x : String) → In x xs → P x) → All P xs
All-of_In P [] h = tt
All-of_In P (y ∷ xs) h =
    (h y (ground (arith, eq_iff y y)), All-of_In P xs (λ x m. h x (ground arith)))

pub All-map {ℓ κ μ} :
    {A : Type ℓ} (P : A → Type κ) (Q : A → Type μ) (xs : List A)
    → ((x : A) → P x → Q x)
    → All P xs
    → All Q xs
All-map P Q [] h all = tt
All-map P Q (x ∷ xs) h all = (h x all.0, All-map P Q xs h all.1)

-- Related elements that hold a text as often hold it as often taken together.
pub count-flat_map-All2 {ℓ κ} :
    {A : Type ℓ} {B : Type κ} (f : A → List String) (g : B → List String) (z : String) (xs : List A)
    (ys : List B)
    → All2 (λ x y. count z (f x) ≡ count z (g y)) xs ys
    → count z (flat_map f xs) ≡ count z (flat_map g ys)
unfolding flat_map
count-flat_map-All2 f g z [] [] h = refl
count-flat_map-All2 f g z [] (y ∷ ys) h = elim h [ ]
count-flat_map-All2 f g z (x ∷ xs) [] h = elim h [ ]
count-flat_map-All2 f g z (x ∷ xs) (y ∷ ys) h = omega (
  arith,
  count-append z (f x) (flat_map f xs),
  count-append z (g y) (flat_map g ys),
  count-flat_map-All2 f g z xs ys h.1,
  h.0,
)

pub All2-map {ℓ κ} :
    {A : Type ℓ} {B : Type κ} (R S : A → B → Type 0) (xs : List A) (ys : List B)
    → ((x : A) (y : B) → R x y → S x y)
    → All2 R xs ys
    → All2 S xs ys
All2-map R S [] [] h all = tt
All2-map R S [] (y ∷ ys) h all = elim all [ ]
All2-map R S (x ∷ xs) [] h all = elim all [ ]
All2-map R S (x ∷ xs) (y ∷ ys) h all = (h x y all.0, All2-map R S xs ys h all.1)
