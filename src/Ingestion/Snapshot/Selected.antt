-- ===== src/Ingestion/Snapshot/Selected.antt =====
-- Which features `_select_features_valid_at` selects.
use gis_vector_map_changes.Prelude.{
  ℕ, String, List, [], ◌∷◌, Bool, true, Option, none, some, ok, ◌≡◌, refl, sym, ap, ◌∙◌, subst,
  eq_iff, false≢true, >>=-eq-ok, ok_injective, Bool-cases, inl, inr,
}
use gis_vector_map_changes.Json
use gis_vector_map_changes.Json.{Json, str, arr, obj, end, null, bool, num}
use gis_vector_map_changes.Shapely.{Shapely}
use gis_vector_map_changes.Ingestion.OhsomeClient.{Datetime, format_instant}
use gis_vector_map_changes.Ingestion.Snapshot.{
  is_text, is_valid_at, select_from, select_features_valid_at,
}

-- The feature has an "@validFrom" among its properties, and that is the text `target`.
abbrev pub IsValidFrom : {F : Type 0} → String → Json F → Type 0
IsValidFrom {F} target feature =
    (props : Json F) × (Json.get_or feature "properties" (obj end) ≡ ok props)
    × (Json.get props "@validFrom" ≡ ok (some (str target)))

-- The second list holds those elements of the first that are valid from `target`, in order, and no other.
pub data Selects {F : Type 0} (target : String) : List (Json F) → List (Json F) → Type 0 where
  empty : Selects target [] []
  taken :
      {f : Json F} {raws chosen : List (Json F)}
      → IsValidFrom target f
      → Selects target raws chosen
      → Selects target (f ∷ raws) (f ∷ chosen)
  left :
      {f : Json F} {raws chosen : List (Json F)}
      → (¬ IsValidFrom target f)
      → Selects target raws chosen
      → Selects target (f ∷ raws) chosen

module _ {F : Type 0} where
  text_is :
      (v : Option (Json F)) (target : String) → is_text v target ≡ true → v ≡ some (str target)
  unfolding is_text
  text_is none target h = absurd (false≢true h)
  text_is (some (str s)) target h = ap (λ x. some (str x)) ((eq_iff s target).0 h)
  text_is (some null) target h = absurd (false≢true h)
  text_is (some (bool b)) target h = absurd (false≢true h)
  text_is (some (num n)) target h = absurd (false≢true h)
  text_is (some (arr items)) target h = absurd (false≢true h)
  text_is (some (obj fields)) target h = absurd (false≢true h)

  is_text-some :
      (v : Option (Json F)) (target : String) → v ≡ some (str target) → is_text v target ≡ true
  unfolding is_text
  is_text-some v target h = rw h ((eq_iff target target).1 refl)

module _ (lib : Shapely) (lower : String → String) (strftime : ℕ → String) where
  open lib use {Float}

  -- how the condition on one feature ends
  is_valid_at-IsValidFrom :
      (target : String) (f : Json Float) (b : Bool)
      → is_valid_at lib lower strftime target f ≡ ok b
      → (b ≡ true → IsValidFrom target f) × (IsValidFrom target f → b ≡ true)
  unfolding is_valid_at
  is_valid_at-IsValidFrom target f b run =
      let (props, got, run1) = >>=-eq-ok (Json.get_or f "properties" (obj end)) _ run in
      let (v, found, run2) = >>=-eq-ok (Json.get props "@validFrom") _ run1 in
      let tested = ok_injective run2 in
      (
        λ h. (props, got, found ∙ ap ok (text_is v target (tested ∙ h))),
        λ valid.
            let same = ok_injective (sym got ∙ valid.1) in
            let is_target : v ≡ some (str target) =
              ok_injective (sym found ∙ ap (λ p. Json.get p "@validFrom") same ∙ valid.2) in
            sym tested ∙ is_text-some v target is_target,
      )

  select_from-Selects :
      (target : String) (raws selected : List (Json Float))
      → select_from lib lower strftime target raws ≡ ok selected
      → Selects target raws selected
  unfolding select_from
  select_from-Selects target [] selected run = subst (Selects target []) (ok_injective run) empty
  select_from-Selects target (f ∷ raws) selected run =
      let (b, tested, run1) = >>=-eq-ok (is_valid_at lib lower strftime target f) _ run in
      let (rest, there, run2) = >>=-eq-ok (select_from lib lower strftime target raws) _ run1 in
      let (to, from) = is_valid_at-IsValidFrom target f b tested in
      let others = select_from-Selects target raws rest there in
      let same = ok_injective run2 in
      elim (Bool-cases b) [
        | inl valid ↦
            subst (Selects target (f ∷ raws)) (sym (rw valid refl) ∙ same) (taken (to valid) others)
        | inr other ↦
            subst (Selects target (f ∷ raws)) (sym (rw other refl) ∙ same)
              (left (λ h. false≢true (sym other ∙ from h)) others)
      ]

  pub select_features_valid_at-Selects :
      (raws selected : List (Json Float)) (time : Datetime)
      → select_features_valid_at lib lower strftime raws time ≡ ok selected
      → (target : String) × (format_instant strftime time ≡ ok target)
        × Selects target raws selected
  unfolding select_features_valid_at
  select_features_valid_at-Selects raws selected time run =
      let (target, formatted, run1) = >>=-eq-ok (format_instant strftime time) _ run in
      (target, formatted, select_from-Selects target raws selected run1)
