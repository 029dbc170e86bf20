-- ===== src/Lib.antt =====
-- Verification of the vector map change detection: two snapshots of the buildings of an area of
-- interest are ingested from the ohsome API, matched with each other, and their differences kept as
-- change records and as a map layer; objects are stored in an S3 store and their metadata in
-- tables; features and changes are published to the serving tables of the map.
--
-- Parts. Ingestion (src/ingestion/) fetches a raw response, selects the features valid at the
-- requested instant, repairs their geometries and normalizes their attributes. Matching
-- (src/matching/) loads two normalized snapshots, matches features by their osm_id, the rest by the
-- components of the graph of overlapping footprints, classifies each result, counts them and
-- renders the change layer. The two meet in the JSON of a processed feature.
--
-- Files. Prelude holds Python's lists, insertion-ordered dicts, sets and exceptions: `Result` is a
-- value or the exception raised, and `HashOrder` an arbitrary order in which a set is iterated.
-- Json holds JSON values with `find`, `get` and indexing. Shapely is the record of everything that
-- is taken from floats, shapely and pyproj, and its laws.
--
-- Ingestion.BuildingCategory is src/ingestion/building_category.py, Ingestion.Validate validate.py,
-- Ingestion.Aoi aoi.py, Ingestion.OhsomeClient ohsome_client.py and Ingestion.Snapshot snapshot.py.
--
-- Matching.Config is src/matching/config.py, Matching.Crs crs.py, Matching.Features features.py,
-- Matching.Metrics metrics.py, Matching.Candidates candidates.py, Matching.Render render.py and
-- Matching.Pipeline pipeline.py. Of changeset.py, Matching.Changeset.Records has the change records
-- and the functions that make one, Matching.Changeset.Components has `_connected_components` with
-- its graph, stack and marks, and Matching.Changeset.Build has `build_changeset`, a function for
-- each of its stages. The names of definitions are those of the source without leading underscores;
-- a loop or a comprehension is a function of its own beside the function that it stands in.
--
-- Storage is src/storage/object_store.py, over an S3 client that is a parameter. Db is
-- src/db/_upsert.py, Db.Snapshots snapshots.py and Db.Changesets changesets.py: a table is the list
-- of its rows and the next value of its sequence, and a call is one transaction, with no other
-- between its statements. One test of two keys stands for the UNIQUE constraint of a table and for
-- the WHERE clause of its lookups, which name the same columns.
--
-- Publish is src/publish/postgis.py: the rows that it stages. Publish.Tables has the serving tables
-- of sql/003_create_feature_tables.sql as lists of rows, their natural key, CHECK constraints and
-- foreign keys as tests, and the two publishing transactions; a call that raises leaves its table
-- as it was.
--
-- Dags is dags/common.py, and the store and the tables that the tasks share; Dags.Task sequences
-- steps of a task, and what was written before an exception stays written. Dags.Ingest is
-- dags/ingest_osm_building_snapshots.py, Dags.BuildChangesets dags/build_changesets.py and
-- Dags.PublishToPostgis dags/publish_to_postgis.py: one function for each task. Api.Tiles,
-- Api.Changesets and Api.Features are api/main.py with the queries of api/queries.py.
--
-- The child modules of a component hold its theorems, and Examples applies them to small snapshots,
-- in a world whose geometries are sets of cells and whose floats are fractions.
--
-- Fuel. `while queue` runs on fuel, as many rounds as the graph has nodes; each node is pushed at
-- most once, so the fuel never runs out.
--
-- Not modelled: the connections to the database, the endpoint on a single change feature, the SQL
-- of the tiles, Airflow itself (its retries, the mapping of a task over a list, the logs) and the
-- web map. Reading files, HTTP requests, `json.dumps`, `strftime`, `strptime`, `str.split`,
-- `str.strip` and `str.lower` are parameters. A value that the code annotates as a text or a truth
-- value raises TypeError in the model where JSON holds something else. The texts of exceptions are
-- shortened.
pub mod Prelude
pub mod Json
pub mod Shapely
pub mod Ingestion
pub mod Matching
pub mod Api
pub mod Dags
pub mod Db
pub mod Publish
pub mod Storage
pub mod Examples
