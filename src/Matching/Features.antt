-- ===== src/Matching/Features.antt =====
-- src/matching/features.py
pub mod Loading
use gis_vector_map_changes.Prelude.{
  String, List, [], ◌∷◌, Bool, true, false, Option, none, some, Dict, keys, lookup, insert,
  contains, Result, ok, err, value_error, traverse, ◌>>=◌, if◌then◌else◌,
}
use gis_vector_map_changes.Json
use gis_vector_map_changes.Json.{Json, nil, arr}
use gis_vector_map_changes.Shapely.{Shapely}
use gis_vector_map_changes.Matching.Config.{significant_tags}
use gis_vector_map_changes.Matching.Crs.{to_metric}

module _ (lib : Shapely) where
  open lib use {Float, Geometry, shape}

  -- `attrs` has the keys of `significant_tags`.
  pub record LoadedFeature : Type 0 where
    pub osm_id : String
    pub geometry : Geometry
    pub attrs : Dict (Option String)
    pub repaired : Bool

  -- one item of the comprehension for `attrs`
  unfoldable pub load_tag : Json Float → String → Result (String × Option String)
  load_tag props tag = do
    value ← Json.get props tag
    text ← Json.as_optional_str value
    ok (tag, text)

  -- `props.get(k) is not None`
  unfoldable pub is_set : Option (Json Float) → Bool
  is_set none = false
  is_set (some Json.null) = false
  is_set (some j) = true

  unfoldable pub load_feature : Json Float → Result LoadedFeature
  unfolding load_tag is_set
  load_feature geojson_feature = do
    props ← Json.index geojson_feature "properties"
    id ← Json.index props "osm_id"
    osm_id ← Json.as_str id
    outline ← Json.index geojson_feature "geometry"
    geometry ← shape outline
    attrs ← traverse (load_tag props) significant_tags
    repair_method ← Json.get props "repair_method"
    ok (record {
      osm_id = osm_id;
      geometry = to_metric lib geometry;
      attrs = attrs;
      repaired = is_set repair_method;
    })

  -- the body of the loop, once the feature is loaded
  unfoldable pub add_feature : Dict LoadedFeature → LoadedFeature → Result (Dict LoadedFeature)
  add_feature loaded feature =
      if contains (keys loaded) feature.osm_id
      then err (value_error "duplicate osm_id in snapshot")
      else ok (insert feature.osm_id feature loaded)

  -- the loop over the features of a snapshot, with those loaded so far
  unfoldable pub load_from : Dict LoadedFeature → List (Json Float) → Result (Dict LoadedFeature)
  load_from loaded [] = ok loaded
  load_from loaded (raw_feature ∷ rest) = do
    feature ← load_feature raw_feature
    next ← add_feature loaded feature
    load_from next rest

  unfoldable pub load_features : Json Float → Result (Dict LoadedFeature)
  load_features processed_geojson = do
    features ← Json.get_or processed_geojson "features" (arr nil)
    raw_features ← Json.as_list features
    load_from [] raw_features
