-- ===== src/Ingestion/Aoi.antt =====
-- src/ingestion/aoi.py. Reading and parsing the file is left out: `load_aoi` starts from its JSON.
use gis_vector_map_changes.Prelude.{
  String, List, [], ◌∷◌, Bool, true, false, none, some, Result, ok, err, value_error, ◌>>=◌, ◌>>◌,
}
use gis_vector_map_changes.Json
use gis_vector_map_changes.Json.{Json, obj, arr, nil, end}

pub record Aoi (F : Type 0) : Type 0 where
  pub aoi_id : String
  pub aoi_version : String
  pub geometry : Json F
  pub properties : Json F

module _ {F : Type 0} where
  -- `required in properties`
  unfoldable pub has_key : Json F → String → Result Bool
  has_key properties k = do
    value ← Json.get properties k
    ok (elim value [ none ↦ false | some v ↦ true ])

  -- the loop over the required properties
  unfoldable pub require_all : Json F → List String → Result (Unit {0})
  unfolding has_key
  require_all properties [] = ok tt
  require_all properties (k ∷ rest) = do
    there ← has_key properties k
    elim there [
      | true ↦ require_all properties rest
      | false ↦ err (value_error "AOI file is missing required property")
    ]

  -- `features[0]`, if it is the only one
  unfoldable pub only_feature : List (Json F) → Result (Json F)
  only_feature (feature ∷ []) = ok feature
  only_feature features = err (value_error "Expected exactly one Feature in AOI file")

  unfoldable pub load_aoi : Json F → Result (Aoi F)
  unfolding require_all only_feature
  load_aoi loaded = do
    listed ← Json.get_or loaded "features" (arr nil)
    features ← Json.as_list listed
    feature ← only_feature features
    properties ← Json.get_or feature "properties" (obj end)
    require_all properties ("aoi_id" ∷ "aoi_version" ∷ [])
    id ← Json.index properties "aoi_id"
    aoi_id ← Json.as_str id
    version ← Json.index properties "aoi_version"
    aoi_version ← Json.as_str version
    geometry ← Json.index feature "geometry"
    ok (record {
      aoi_id = aoi_id;
      aoi_version = aoi_version;
      geometry = geometry;
      properties = properties;
    })
