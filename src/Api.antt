-- ===== src/Api.antt =====
-- api/main.py and api/queries.py: the parameters of the requests, and the rows that the endpoints answer
-- with. FastAPI, the connection and PostGIS are parameters.
pub mod Tiles
pub mod Changesets
pub mod Features
