-- ===== src/Examples/Buildings.antt =====
-- Two small snapshots of buildings, as the JSON of processed features and as loaded features.
use gis_vector_map_changes.Prelude.{
  ℕ, String, List, [], ◌∷◌, false, Option, none, some, Dict, IsDistinct, ok, All2, arith, ◌≡◌, refl,
  traverse, count, eq_iff, ◌==◌, Bool-cases, inl, inr, ap,
}
use gis_vector_map_changes.Json
use gis_vector_map_changes.Json.{Json, obj, arr, str, null, nil}
use gis_vector_map_changes.Matching.Features.{LoadedFeature, load_feature, load_features}
use gis_vector_map_changes.Matching.Features.Loading.{
  IsKeyed, osm_ids, by_osm_id, load_features-IsKeyed, load_features_lem,
}
use gis_vector_map_changes.Matching.Crs.{to_metric}
use gis_vector_map_changes.Examples.Cells.{Cells, Fraction, cells_world, cells_mapping}

abbrev pub polygon : List ℕ → Cells
polygon cells = record { kind = "Polygon"; cells = cells }

-- a processed feature
abbrev pub building : String → Json Fraction → List ℕ → Json Fraction
building osm_id name cells = obj (
    Json.obj_of (
      ("type", str "Feature")
      ∷ ("geometry", cells_mapping (polygon cells))
      ∷ (
        "properties",
        obj (
            Json.obj_of (
              ("osm_id", str osm_id)
              ∷ ("building", str "house")
              ∷ ("category", str "residential")
              ∷ ("name", name)
              ∷ ("repair_method", null)
              ∷ [])),
      )
      ∷ []))

abbrev pub snapshot_of : List (Json Fraction) → Json Fraction
snapshot_of features = obj (Json.obj_of (("features", arr (Json.arr_of features)) ∷ []))

-- "way/2" is split into "way/3" and "way/4".
abbrev pub older_raws : List (Json Fraction)
older_raws =
    building "way/1" (str "Mill") (1 ∷ 2 ∷ [])
    ∷ building "way/2" null (5 ∷ 6 ∷ [])
    ∷ building "way/9" null (20 ∷ [])
    ∷ []

abbrev pub newer_raws : List (Json Fraction)
newer_raws =
    building "way/1" (str "Old Mill") (1 ∷ 2 ∷ [])
    ∷ building "way/3" null (5 ∷ [])
    ∷ building "way/4" null (6 ∷ [])
    ∷ []

abbrev pub loaded : String → Option String → List ℕ → LoadedFeature cells_world
loaded osm_id name cells = record {
  osm_id = osm_id;
  geometry = polygon cells;
  attrs = ("building", some "house") ∷ ("category", some "residential") ∷ ("name", name) ∷ [];
  repaired = false;
}

abbrev pub older_features : List (LoadedFeature cells_world)
older_features =
    loaded "way/1" (some "Mill") (1 ∷ 2 ∷ [])
    ∷ loaded "way/2" none (5 ∷ 6 ∷ [])
    ∷ loaded "way/9" none (20 ∷ [])
    ∷ []

abbrev pub newer_features : List (LoadedFeature cells_world)
newer_features =
    loaded "way/1" (some "Old Mill") (1 ∷ 2 ∷ [])
    ∷ loaded "way/3" none (5 ∷ [])
    ∷ loaded "way/4" none (6 ∷ [])
    ∷ []

abbrev pub older : Dict (LoadedFeature cells_world)
older = by_osm_id cells_world older_features

abbrev pub newer : Dict (LoadedFeature cells_world)
newer = by_osm_id cells_world newer_features

pub older_loads : All2 (λ raw f. load_feature cells_world raw ≡ ok f) older_raws older_features
unfolding load_feature Json.index Json.obj_of Json.as_str Json.as_list traverse Json.arr_of Json.get
    Json.as_optional_str to_metric
older_loads = (refl, (refl, (refl, tt)))

pub newer_loads : All2 (λ raw f. load_feature cells_world raw ≡ ok f) newer_raws newer_features
unfolding load_feature Json.index Json.obj_of Json.as_str Json.as_list traverse Json.arr_of Json.get
    Json.as_optional_str to_metric
newer_loads = (refl, (refl, (refl, tt)))

pub got_features :
    (raws : List (Json Fraction))
    → Json.get_or (snapshot_of raws) "features" (arr nil) ≡ ok (arr (Json.arr_of raws))
unfolding Json.get_or Json.obj_of Json.find
got_features raws = refl

pub listed : (raws : List (Json Fraction)) → Json.as_list (arr (Json.arr_of raws)) ≡ ok raws
unfolding Json.as_list
listed raws = rw Json.items-arr_of

IsDistinct-cons :
    (y : String) (xs : List String) → count y xs ≡ 0 → IsDistinct xs → IsDistinct (y ∷ xs)
IsDistinct-cons y xs fresh d x = elim (Bool-cases (x == y)) [
  | inl same ↦ let none' = ap (λ z. count z xs) ((eq_iff x y).0 same) in ground arith
  | inr other ↦ ground (arith, d x)
]

pub older-IsDistinct : IsDistinct (osm_ids cells_world older_features)
older-IsDistinct = IsDistinct-cons "way/1" ("way/2" ∷ "way/9" ∷ []) refl (
    IsDistinct-cons "way/2" ("way/9" ∷ []) refl
      (IsDistinct-cons "way/9" [] refl (λ x. omega arith)))

pub newer-IsDistinct : IsDistinct (osm_ids cells_world newer_features)
newer-IsDistinct = IsDistinct-cons "way/1" ("way/3" ∷ "way/4" ∷ []) refl (
    IsDistinct-cons "way/3" ("way/4" ∷ []) refl
      (IsDistinct-cons "way/4" [] refl (λ x. omega arith)))

pub older_loaded : load_features cells_world (snapshot_of older_raws) ≡ ok older
older_loaded =
    (load_features_lem cells_world (snapshot_of older_raws) (arr (Json.arr_of older_raws))
        older_raws older_features (got_features older_raws) (listed older_raws) older_loads).0.1
      older-IsDistinct

pub newer_loaded : load_features cells_world (snapshot_of newer_raws) ≡ ok newer
newer_loaded =
    (load_features_lem cells_world (snapshot_of newer_raws) (arr (Json.arr_of newer_raws))
        newer_raws newer_features (got_features newer_raws) (listed newer_raws) newer_loads).0.1
      newer-IsDistinct

pub older-IsKeyed : IsKeyed cells_world older
older-IsKeyed = load_features-IsKeyed cells_world (snapshot_of older_raws) older older_loaded

pub newer-IsKeyed : IsKeyed cells_world newer
newer-IsKeyed = load_features-IsKeyed cells_world (snapshot_of newer_raws) newer newer_loaded
