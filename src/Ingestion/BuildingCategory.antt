-- ===== src/Ingestion/BuildingCategory.antt =====
-- src/ingestion/building_category.py
use gis_vector_map_changes.Prelude.{
  String, List, [], ◌∷◌, ◌++◌, Option, none, some, Dict, lookup, In, arith, ◌≡◌, ◌==◌, Bool-cases,
  Option-cases, All, subst, inl, inr,
}

abbrev pub category_other : String
category_other = "other"

-- `ALL_CATEGORIES`
abbrev pub all_categories : List String
all_categories =
    "residential" ∷ "commercial" ∷ "industrial" ∷ "religious" ∷ "civic" ∷ category_other ∷ []

-- rows of the table that map to one category
abbrev pub rows : String → List String → Dict String
rows category [] = []
rows category (v ∷ vs) = (v, category) ∷ rows category vs

-- `_BUILDING_TAG_TO_CATEGORY`
unfoldable pub building_tag_to_category : Dict String
building_tag_to_category =
    rows "residential" (
      "house" ∷ "detached" ∷ "semidetached_house" ∷ "terrace" ∷ "apartments" ∷ "residential"
      ∷ "dormitory" ∷ "bungalow" ∷ "static_caravan" ∷ [])
    ++ (rows "commercial" (
          "commercial" ∷ "retail" ∷ "office" ∷ "supermarket" ∷ "kiosk" ∷ "hotel" ∷ "restaurant"
          ∷ [])
        ++ (rows "industrial" ("industrial" ∷ "warehouse" ∷ "manufacture" ∷ "factory" ∷ [])
            ++ (rows "religious" (
                  "church" ∷ "mosque" ∷ "synagogue" ∷ "temple" ∷ "cathedral" ∷ "chapel"
                  ∷ "religious" ∷ [])
                ++ rows "civic" (
                    "school" ∷ "university" ∷ "hospital" ∷ "government" ∷ "civic" ∷ "public"
                    ∷ "kindergarten" ∷ "train_station" ∷ "fire_station" ∷ []))))

-- `lower` is Python's `str.lower`.
unfoldable pub categorize : (String → String) → Option String → String
categorize lower none = category_other
categorize lower (some value) = elim (lookup (lower value) building_tag_to_category) [
  | none ↦ category_other
  | some c ↦ c
]

-- What a table gives satisfies what all of its rows satisfy.
lookup-All :
    (P : String → Type 0) (d : Dict String) (k c : String)
    → All (λ row. P row.1) d
    → lookup k d ≡ some c
    → P c
unfolding lookup
lookup-All P [] k c every found = absurd (cc)
lookup-All P ((j, v) ∷ d) k c every found = elim (Bool-cases (k == j)) [
  | inl same ↦ let e : v ≡ c = ground arith in subst P e every.0
  | inr other ↦ lookup-All P d k c every.1 (ground arith)
]

known_categories : All (λ row. In row.1 all_categories) building_tag_to_category
unfolding building_tag_to_category
known_categories = omega arith

-- Whatever the tag, its category is one of the six that the module documents.
pub categorize-In :
    (lower : String → String) (tag : Option String) → In (categorize lower tag) all_categories
unfolding categorize
categorize-In lower none = omega arith
categorize-In lower (some value) =
    elim (Option-cases (lookup (lower value) building_tag_to_category)) [
      | inl missing ↦ rw (missing, categorize) (omega arith)
      | inr (c, found) ↦
          rw (found, categorize)
            (lookup-All (λ v. In v all_categories) building_tag_to_category (lower value) c
              known_categories found)
    ]
