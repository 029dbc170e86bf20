-- ===== src/Matching/Config.antt =====
-- src/matching/config.py
use gis_vector_map_changes.Prelude.{String, List, [], ◌∷◌}
use gis_vector_map_changes.Shapely.{Shapely}

abbrev pub algorithm_version : String
algorithm_version = "v1"

abbrev pub significant_tags : List String
significant_tags = "building" ∷ "category" ∷ "name" ∷ []

module _ (lib : Shapely) where
  open lib use {Float, decimal}

  abbrev pub t_unchanged_iou : Float
  t_unchanged_iou = decimal 99 2

  abbrev pub t_cross_id_match : Float
  t_cross_id_match = decimal 50 2

  abbrev pub aoi_boundary_distance_m : Float
  aoi_boundary_distance_m = decimal 5 1
