-- ===== src/Ingestion/OhsomeClient.antt =====
-- src/ingestion/ohsome_client.py. `strftime` of a UTC instant, `json.dumps` and the HTTP request are
-- parameters.
use gis_vector_map_changes.Prelude.{
  ℕ, ◌+◌, String, [], ◌∷◌, Dict, Result, ok, err, value_error, ◌>>=◌, str_append,
}
use gis_vector_map_changes.Json
use gis_vector_map_changes.Json.{Json, obj, arr, str, cons, nil, end}

-- A `datetime`: the instant of an aware one as a count of seconds in UTC, and the wall clock of a
-- naive one.
pub data Datetime : Type 0 where
  aware : ℕ → Datetime
  naive : ℕ → Datetime

abbrev pub base_url : String
base_url = "https://api.ohsome.org/v1"

abbrev pub endpoint : String
endpoint = str_append base_url "/elementsFullHistory/geometry"

-- `RANGE_WIDTH`, in seconds
abbrev pub range_width : ℕ
range_width = 1

abbrev pub building_filter : String
building_filter = "building=* and geometry:polygon"

abbrev pub requested_properties : String
requested_properties = "tags"

-- `requested_time + RANGE_WIDTH`
unfoldable pub add_width : Datetime → Datetime
add_width (aware t) = aware (t + range_width)
add_width (naive t) = naive (t + range_width)

unfoldable pub format_instant : (ℕ → String) → Datetime → Result String
format_instant strftime (aware t) = ok (strftime t)
format_instant strftime (naive t) = err (value_error "requested_time must be timezone-aware")

module _ {F : Type 0} (strftime : ℕ → String) (dumps : Json F → String) where
  -- the dict `bpolys`
  unfoldable pub bpolys : Json F → Json F
  bpolys aoi_geometry = obj (
      Json.obj_of (
        ("type", str "FeatureCollection")
        ∷ (
          "features",
          arr (
              cons
                (obj (
                  Json.obj_of (
                    ("type", str "Feature")
                    ∷ ("properties", obj end)
                    ∷ ("geometry", aoi_geometry)
                    ∷ [])))
                nil),
        )
        ∷ []))

  unfoldable pub build_request_payload : Json F → Datetime → String → String → Result (Dict String)
  unfolding format_instant add_width bpolys
  build_request_payload aoi_geometry requested_time filter_expression properties = do
    range_start ← format_instant strftime requested_time
    range_end ← format_instant strftime (add_width requested_time)
    ok (
        ("bpolys", dumps (bpolys aoi_geometry))
        ∷ ("filter", filter_expression)
        ∷ ("time", str_append range_start (str_append "," range_end))
        ∷ ("properties", properties)
        ∷ [])

  -- `post` is the request, with `raise_for_status` and the parsing of its answer.
  unfoldable pub fetch_building_geometries :
      (String → Dict String → Result (Json F)) → Json F → Datetime → Result (Json F)
  unfolding build_request_payload
  fetch_building_geometries post aoi_geometry requested_time = do
    payload ← build_request_payload aoi_geometry requested_time building_filter requested_properties
    post endpoint payload
