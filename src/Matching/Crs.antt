-- ===== src/Matching/Crs.antt =====
-- src/matching/crs.py
use gis_vector_map_changes.Prelude.{if◌then◌else◌}
use gis_vector_map_changes.Shapely.{Shapely}

module _ (lib : Shapely) where
  open lib use {Geometry, is_valid, buffer_zero, transform_to_metric, transform_to_storage}

  unfoldable pub to_metric : Geometry → Geometry
  to_metric geometry =
      let reprojected = transform_to_metric geometry in
      if is_valid reprojected then reprojected else buffer_zero reprojected

  unfoldable pub to_crs84 : Geometry → Geometry
  to_crs84 geometry = transform_to_storage geometry
