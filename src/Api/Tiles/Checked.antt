-- ===== src/Api/Tiles/Checked.antt =====
-- Which requests for a tile are answered.
use gis_vector_map_changes.Prelude.{
  ℕ, ◌^◌, ◌≤◌, ◌<◌, ℤ, pos, negsuc, String, List, [], ◌∷◌, any, contains, Bool, true, false, not,
  ◌&&◌, Option, none, some, ok, err, http_exception, All, arith, ◌≡◌, ◌↔◌, inl, inr, refl, sym, ◌∙◌,
  err≢ok, Bool-cases, if◌then◌else◌, sort, text_le, false≢true, map, subst, eq_iff, ◌==◌,
}
use gis_vector_map_changes.Matching.Changeset.Records.{classifications, classification_text}
use gis_vector_map_changes.Api.Tiles.{
  within, tile_limit, validate_tile, valid_classifications, stripped, requested_classifications,
}

-- A tile of the pyramid of the zooms 0 to 22.
pub record IsTile (z x y : ℤ) : Type 0 where
  pub zoom : ℕ
  pub column : ℕ
  pub row : ℕ
  pub z_is : z ≡ pos zoom
  pub x_is : x ≡ pos column
  pub y_is : y ≡ pos row
  pub zoom_in : zoom ≤ 22
  pub column_in : column < 2 ^ zoom
  pub row_in : row < 2 ^ zoom

abbrev is_tile : ℤ → ℤ → ℤ → Bool
is_tile z x y = within z 23 && (within x (tile_limit z) && within y (tile_limit z))

validate_tile-is_tile :
    (z x y : ℤ) → validate_tile z x y ≡ (if is_tile z x y then ok tt else err (http_exception 400))
unfolding validate_tile
validate_tile-is_tile z x y = ground arith

is_tile-IsTile : (z x y : ℤ) → is_tile z x y ≡ true → IsTile z x y
unfolding within tile_limit
is_tile-IsTile (pos z) (pos x) (pos y) h = record {
  zoom = z;
  column = x;
  row = y;
  z_is = refl;
  x_is = refl;
  y_is = refl;
  zoom_in = ground arith;
  column_in = ground arith;
  row_in = ground arith;
}
is_tile-IsTile (pos z) (pos x) (negsuc y) h = absurd (ground arith)
is_tile-IsTile (pos z) (negsuc x) y h = absurd (ground arith)
is_tile-IsTile (negsuc z) x y h = absurd (ground arith)

IsTile-is_tile : (z x y : ℤ) → IsTile z x y → is_tile z x y ≡ true
unfolding within tile_limit
IsTile-is_tile z x y t =
    let h1 = t.zoom_in in
    let h2 = t.column_in in
    let h3 = t.row_in in rw (t.z_is, t.x_is, t.y_is) (ground (arith, h1, h2, h3))

-- `_validate_tile` passes exactly the tiles of the zooms 0 to 22; to every other request it answers 400.
pub validate_tile-IsTile :
    (z x y : ℤ)
    → ((validate_tile z x y ≡ ok tt) ↔ IsTile z x y)
      × ((validate_tile z x y ≡ err (http_exception 400)) ↔ (¬ IsTile z x y))
validate_tile-IsTile z x y =
    let tests = validate_tile-is_tile z x y in
    elim (Bool-cases (is_tile z x y)) [
      | inl tile ↦
          let passed : validate_tile z x y ≡ ok tt = tests ∙ rw tile refl in
          let all = is_tile-IsTile z x y tile in
          (
            (λ h. all, λ c. passed),
            (λ e. absurd (err≢ok {e = http_exception 400} (sym e ∙ passed)), λ n. absurd (n all)),
          )
      | inr other ↦
          let raised : validate_tile z x y ≡ err (http_exception 400) = tests ∙ rw other refl in
          let differ : ¬ IsTile z x y = λ c. false≢true (sym other ∙ IsTile-is_tile z x y c) in
          (
            (
              λ h. absurd (err≢ok {e = http_exception 400} (sym raised ∙ h)),
              λ c. absurd (differ c),
            ),
            (λ e. differ, λ n. raised),
          )
    ]

-- The name is the text of a classification that is not unchanged.
abbrev pub IsChange : String → Type 0
IsChange c = (contains (map classification_text classifications) c ≡ true) × (¬ (c ≡ "unchanged"))

abbrev pub AllValid : List String → Type 0
AllValid = All IsChange

valid-IsChange : (c : String) → contains valid_classifications c ≡ true → IsChange c
unfolding classification_text
valid-IsChange c h = (
  ground arith,
  λ e. absurd (false≢true (subst (λ x. contains valid_classifications x ≡ true) e h)),
)

IsChange-valid : (c : String) → IsChange c → contains valid_classifications c ≡ true
unfolding classification_text
IsChange-valid c (known, other) = elim (Bool-cases (c == "unchanged")) [
  | inl same ↦ absurd (other ((eq_iff c "unchanged").0 same))
  | inr differ ↦ ground arith
]

any-All :
    (xs : List String) → any (λ c. not (contains valid_classifications c)) xs ≡ false → AllValid xs
any-All [] h = tt
any-All (x ∷ xs) h = (valid-IsChange x (ground arith), any-All xs (ground arith))

All-any_valid :
    (xs : List String) → AllValid xs → any (λ c. not (contains valid_classifications c)) xs ≡ false
All-any_valid [] h = refl
All-any_valid (x ∷ xs) h = rw (IsChange-valid x h.0) (All-any_valid xs h.1)

default_valid : AllValid (sort text_le valid_classifications)
unfolding sort
default_valid = any-All (sort text_le valid_classifications) refl

module _ (split : String → List String) (strip : String → String) where
  abbrev pub asked : Option String → List String
  asked none = sort text_le valid_classifications
  asked (some text) = stripped split strip (split text)

  -- A request for classifications is answered with the stripped names, or with all of the valid ones where
  -- it has none, exactly if each name is the text of a classification other than "unchanged", and with 400 otherwise.
  pub requested_classifications-AllValid :
      (classifications : Option String)
      → ((requested_classifications split strip classifications ≡ ok (asked classifications))
          ↔ AllValid (asked classifications))
        × ((requested_classifications split strip classifications ≡ err (http_exception 400))
            ↔ (¬ AllValid (asked classifications)))
  unfolding requested_classifications
  requested_classifications-AllValid none = (
    (λ h. default_valid, λ h. refl),
    (λ e. absurd (err≢ok {e = http_exception 400} (sym e)), λ n. absurd (n default_valid)),
  )
  requested_classifications-AllValid (some text) =
      let names = stripped split strip (split text) in
      elim (Bool-cases (any (λ c. not (contains valid_classifications c)) names)) [
        | inl unknown ↦
            let invalid : ¬ AllValid names =
              λ h. false≢true (sym (All-any_valid names h) ∙ unknown) in
            (
              (
                λ h. absurd (err≢ok {e = http_exception 400} (sym (rw unknown refl) ∙ h)),
                λ h. absurd (invalid h),
              ),
              (λ e. invalid, λ n. rw unknown refl),
            )
        | inr known ↦
            let valid = any-All names known in
            (
              (λ h. valid, λ h. rw known refl),
              (
                λ e. absurd (err≢ok {e = http_exception 400} {a = names} (sym e ∙ rw known refl)),
                λ n. absurd (n valid),
              ),
            )
      ]
