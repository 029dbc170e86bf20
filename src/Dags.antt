-- ===== src/Dags.antt =====
-- dags/common.py, and the state that the tasks of the DAGs share. Airflow, the environment and the services
-- behind the connections are parameters.
pub mod Task
pub mod Ingest
pub mod BuildChangesets
pub mod PublishToPostgis
use gis_vector_map_changes.Prelude.{
  ℕ, String, List, [], ◌∷◌, Result, ok, err, Dict, HashOrder, ◌>>=◌,
}
use gis_vector_map_changes.Json.{Json}
use gis_vector_map_changes.Shapely.{Shapely}
use gis_vector_map_changes.Storage.{Client}
use gis_vector_map_changes.Db.{Table}
use gis_vector_map_changes.Db.Snapshots.{SnapshotParams}
use gis_vector_map_changes.Db.Changesets.{ChangesetParams}
use gis_vector_map_changes.Publish.{PostGis}
use gis_vector_map_changes.Publish.Tables.{SnapshotFeature, ChangeFeature}

abbrev pub default_source : String
default_source = "openstreetmap-ohsome"

abbrev pub default_layer : String
default_layer = "building"

abbrev pub default_aoi_id : String
default_aoi_id = "tel-aviv-yafo"

abbrev pub default_aoi_version : String
default_aoi_version = "v1"

abbrev pub default_source_query_version : String
default_source_query_version = "v2"

abbrev pub default_algorithm_version : String
default_algorithm_version = "v1"

abbrev pub instant_format : String
instant_format = "%Y-%m-%dT%H:%M:%SZ"

abbrev pub requested_times : List String
requested_times =
    "2021-07-01T00:00:00Z" ∷ "2022-07-01T00:00:00Z" ∷ "2023-07-01T00:00:00Z"
    ∷ "2024-07-01T00:00:00Z" ∷ "2025-07-01T00:00:00Z" ∷ "2026-06-01T00:00:00Z"
    ∷ "2026-07-01T00:00:00Z" ∷ []

-- A dict of a comparison pair.
pub record Pair : Type 0 where
  pub requested_time_a : String
  pub requested_time_b : String

abbrev pub pair_of : String → String → Pair
pair_of a b = record { requested_time_a = a; requested_time_b = b }

abbrev pub comparison_pairs : List Pair
comparison_pairs =
    pair_of "2026-06-01T00:00:00Z" "2026-07-01T00:00:00Z"
    ∷ pair_of "2025-07-01T00:00:00Z" "2026-07-01T00:00:00Z"
    ∷ pair_of "2021-07-01T00:00:00Z" "2026-07-01T00:00:00Z"
    ∷ pair_of "2021-07-01T00:00:00Z" "2022-07-01T00:00:00Z"
    ∷ pair_of "2022-07-01T00:00:00Z" "2023-07-01T00:00:00Z"
    ∷ pair_of "2023-07-01T00:00:00Z" "2024-07-01T00:00:00Z"
    ∷ pair_of "2024-07-01T00:00:00Z" "2025-07-01T00:00:00Z"
    ∷ []

-- The values that the tasks read from `current_params()`, whose keys the DAGs declare.
pub record Params : Type 0 where
  pub source : String
  pub layer : String
  pub aoi_id : String
  pub aoi_version : String
  pub source_query_version : String
  pub algorithm_version : String

-- `parse_instant`: `strptime` gives the seconds of the wall clock, which is then that of UTC.
unfoldable pub parse_instant : (String → String → Result ℕ) → String → Result ℕ
parse_instant strptime iso = strptime iso instant_format

-- The columns of the dict that `natural_key` returns; a lookup reads no other.
abbrev pub key_columns : Params → ℕ → SnapshotParams
key_columns params requested_time = record {
  source = params.source;
  source_query_version = params.source_query_version;
  layer = params.layer;
  aoi_id = params.aoi_id;
  aoi_version = params.aoi_version;
  requested_time = requested_time;
  crs = "";
  raw_object_uri = "";
  processed_object_uri = "";
  feature_count = 0;
  invalid_geometry_count = 0;
  repaired_geometry_count = 0;
}

unfoldable pub natural_key : (String → String → Result ℕ) → Params → String → Result SnapshotParams
unfolding parse_instant
natural_key strptime params requested_time_str = do
  requested_time ← parse_instant strptime requested_time_str
  ok (key_columns params requested_time)

-- What the tasks take from outside the repository, beside shapely and PostGIS.
pub record Outside (lib : Shapely) : Type 1 where
  pub client : Client
  pub dumps : Json lib.Float → String
  pub loads : String → Result (Json lib.Float)
  pub strptime : String → String → Result ℕ
  pub strftime : ℕ → String
  pub lower : String → String
  -- the request to the ohsome API
  pub post : String → Dict String → Result (Json lib.Float)
  -- the parsed AOI file
  pub aoi_file : Json lib.Float
  -- `MINIO_BUCKET`
  pub bucket : String
  pub order : HashOrder

-- The object store and the tables.
pub record World (lib : Shapely) (out : Outside lib) (db : PostGis lib) : Type 0 where
  pub store : out.client.State
  pub snapshots : Table SnapshotParams
  pub changesets : Table ChangesetParams
  pub features : List (SnapshotFeature db.Geom)
  pub changes : List (ChangeFeature lib.Float db.Geom)
