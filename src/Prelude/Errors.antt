-- ===== src/Prelude/Errors.antt =====
-- The exceptions that the code raises, and code that may raise one.
use Prim.Native.Nat.{ℕ, suc}
use Prim.Native.String.{String}
use mathlib.Core.Path.{◌≡◌, refl, ap, sym, ◌∙◌}
use mathlib.Core.List.{List, [], ◌∷◌}
use package.gis_vector_map_changes.Prelude.Lists.{All, All2, length}

-- `db_error` is what the database raises on a violated constraint. `out_of_fuel` is no exception of the source: a loop of the model has used up its fuel.
pub data Error : Type 0 where
  key_error : String → Error
  index_error : Error
  type_error : String → Error
  value_error : String → Error
  db_error : String → Error
  http_exception : ℕ → Error
  out_of_fuel : Error

pub data Result {ℓ} (A : Type ℓ) : Type ℓ where
  ok : A → Result A
  err : Error → Result A

pub ok_injective {ℓ} : {A : Type ℓ} {a b : A} → ok a ≡ ok b → a ≡ b
ok_injective h = cc

pub err≢ok {ℓ} : {A : Type ℓ} {e : Error} {a : A} → err e ≡ ok a → ⊥
err≢ok h = cc

module _ {ℓ κ} {A : Type ℓ} {B : Type κ} where
  infixl 5 ◌>>=◌ ◌>>◌
  -- what runs after a value, and not after an exception
  abbrev pub ◌>>=◌ : Result A → (A → Result B) → Result B
  ok value >>= next = next value
  err raised >>= next = err raised

  abbrev pub ◌>>◌ : Result A → Result B → Result B
  first >> second = first >>= λ _. second

  pub >>=-ok :
      (first : Result A) (next : A → Result B) {value : A} {result : B}
      → first ≡ ok value
      → next value ≡ ok result
      → (first >>= next) ≡ ok result
  >>=-ok first next returned then_returned = ap (λ m. m >>= next) returned ∙ then_returned

  -- Where a sequence raised nothing, its first part returned a value, and so did what runs after it.
  pub >>=-eq-ok :
      (first : Result A) (next : A → Result B) {result : B}
      → (first >>= next) ≡ ok result
      → (value : A) × (first ≡ ok value) × (next value ≡ ok result)
  >>=-eq-ok (ok value) next returned = (value, refl, returned)
  >>=-eq-ok (err raised) next returned = cc

-- A loop, or a comprehension, whose body may raise: the first exception ends it.
module _ {ℓ κ} {A : Type ℓ} {B : Type κ} where
  unfoldable pub traverse : (A → Result B) → List A → Result (List B)
  traverse f [] = ok []
  traverse f (x ∷ xs) = do y ← f x; ys ← traverse f xs; ok (y ∷ ys)

-- A comprehension whose body returns at every element returns, and its results are related to the
-- elements one by one.
pub traverse-returns {ℓ κ} :
    {A : Type ℓ} {B : Type κ} (f : A → Result B) (R : A → B → Type 0) (xs : List A)
    → All (λ x. (y : B) × (f x ≡ ok y) × R x y) xs
    → (ys : List B) × (traverse f xs ≡ ok ys) × All2 R xs ys
unfolding traverse
traverse-returns f R [] h = ([], refl, tt)
traverse-returns f R (x ∷ xs) h =
    let (y, here, holds) = h.0 in
    let (ys, rest, all) = traverse-returns f R xs h.1 in (y ∷ ys, rw (here, rest), (holds, all))

pub length-traverse {ℓ κ} :
    {A : Type ℓ} {B : Type κ} (f : A → Result B) (xs : List A) (ys : List B)
    → traverse f xs ≡ ok ys
    → length ys ≡ length xs
unfolding traverse
length-traverse f [] ys run = ap length (sym (ok_injective run))
length-traverse f (x ∷ xs) ys run =
    let (y, here, run1) = >>=-eq-ok (f x) _ run in
    let (rest, others, run2) = >>=-eq-ok (traverse f xs) _ run1 in
    ap length (sym (ok_injective run2)) ∙ ap (λ n. suc n) (length-traverse f xs rest others)
