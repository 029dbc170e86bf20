-- ===== src/Ingestion/Snapshot/Normal.antt =====
-- What `_parse_osm_id` splits, and what a snapshot that is built holds.
use gis_vector_map_changes.Prelude.{
  false, before_slash-append, after_slash-append, has_slash, str_append, ℕ, String, List, [], ◌∷◌,
  ok, length, All2, ◌≡◌, refl, sym, ap, ◌∙◌, >>=-eq-ok, ok_injective,
}
use native.Mathlib.Nat.{zero-add}
use gis_vector_map_changes.Json
use gis_vector_map_changes.Json.{Json, Fields, str, arr, nil, obj, end}
use gis_vector_map_changes.Shapely.{Shapely}
use gis_vector_map_changes.Ingestion.Validate.{ValidationResult}
use gis_vector_map_changes.Ingestion.Aoi.{Aoi}
use gis_vector_map_changes.Ingestion.OhsomeClient.{Datetime, format_instant}
use gis_vector_map_changes.Ingestion.Snapshot.{
  parse_osm_id, tally_from, select_features_valid_at, SnapshotResult, snapshot_result,
  build_snapshot_from_raw,
}
use gis_vector_map_changes.Ingestion.Snapshot.Selected.{Selects, select_features_valid_at-Selects}
use gis_vector_map_changes.Ingestion.Snapshot.Tallied.{
  features_of, invalids, Normalized, tally_from-Counted,
}

-- `_parse_osm_id` splits the text of a type without a slash, a slash and a reference into the two.
pub parse_osm_id_lem :
    (osm_type osm_ref : String)
    → has_slash osm_type ≡ false
    → parse_osm_id (str_append osm_type (str_append "/" osm_ref)) ≡ (osm_type, osm_ref)
unfolding parse_osm_id
parse_osm_id_lem osm_type osm_ref plain =
    rw (before_slash-append osm_type osm_ref plain, after_slash-append osm_type osm_ref plain) refl

module _ (lib : Shapely) (lower : String → String) (strftime : ℕ → String) where
  open lib use {Float}

  -- A snapshot whose processed features are those `made`.
  pub record IsSnapshot (raw_geojson : Json Float) (requested_time : Datetime)
      (s : SnapshotResult lib lower strftime) (selected : List (Json Float))
      (made : List (Json Float × ValidationResult lib)) : Type 0 where
    pub listed : Json Float
    pub raws : List (Json Float)
    pub got : Json.get_or raw_geojson "features" (arr nil) ≡ ok listed
    pub is_list : Json.as_list listed ≡ ok raws
    pub target : String
    pub formatted : format_instant strftime requested_time ≡ ok target
    pub chosen : Selects target raws selected
    pub tells : All2 (λ raw m. Normalized lib lower strftime raw m.0 m.1) selected made
    pub processed :
        s.processed_geojson
        ≡ obj (
            Json.obj_of (
              ("type", str "FeatureCollection")
              ∷ ("features", arr (Json.arr_of (features_of lib lower strftime made)))
              ∷ []))
    pub total : s.feature_count ≡ length (features_of lib lower strftime made)
    pub invalid : s.invalid_geometry_count ≡ invalids lib lower strftime made
    pub repaired : s.repaired_geometry_count ≡ invalids lib lower strftime made

  -- A snapshot that is built holds the normalized form of each feature whose "@validFrom" is the text of the requested
  -- instant, in order, and of no other; it counts them, and its two counts, of the invalid geometries and of the
  -- repaired ones, are both the number of features whose geometry was invalid.
  pub build_snapshot_from_raw-IsSnapshot :
      (raw_geojson : Json Float) (aoi : Aoi Float) (requested_time : Datetime)
      (source_query_version : String) (s : SnapshotResult lib lower strftime)
      → build_snapshot_from_raw lib lower strftime raw_geojson aoi requested_time
          source_query_version
        ≡ ok s
      → (selected : List (Json Float)) × (made : List (Json Float × ValidationResult lib))
        × IsSnapshot raw_geojson requested_time s selected made
  unfolding build_snapshot_from_raw snapshot_result
  build_snapshot_from_raw-IsSnapshot raw_geojson aoi requested_time source_query_version s run =
      let (listed, got, run1) = >>=-eq-ok (Json.get_or raw_geojson "features" (arr nil)) _ run in
      let (raws, is_list, run2) = >>=-eq-ok (Json.as_list listed) _ run1 in
      let (selected, chosen, run3) =
        >>=-eq-ok (select_features_valid_at lib lower strftime raws requested_time) _ run2 in
      let (t, counted, run4) = >>=-eq-ok (tally_from lib lower strftime _ selected) _ run3 in
      let (made, c) = tally_from-Counted lib lower strftime _ t selected counted in
      let same = ok_injective run4 in
      let (target, formatted, selects) =
        select_features_valid_at-Selects lib lower strftime raws selected requested_time chosen in
      (
        selected,
        made,
        record {
          listed = listed;
          raws = raws;
          got = got;
          is_list = is_list;
          target = target;
          formatted = formatted;
          chosen = selects;
          tells = c.tells;
          processed =
              ap (λ x. x.processed_geojson) (sym same)
              ∙ ap
                  (λ fs. obj (
                    Json.obj_of (
                      ("type", str "FeatureCollection") ∷ ("features", arr (Json.arr_of fs)) ∷ [])))
                  c.processed;
          total = ap (λ x. x.feature_count) (sym same) ∙ ap length c.processed;
          invalid =
              ap (λ x. x.invalid_geometry_count) (sym same)
              ∙ c.invalid
              ∙ zero-add (invalids lib lower strftime made);
          repaired =
              ap (λ x. x.repaired_geometry_count) (sym same)
              ∙ c.repaired
              ∙ zero-add (invalids lib lower strftime made);
        },
      )
