-- ===== src/Examples.antt =====
-- Concrete inputs: a world of cells in place of shapely, and the theorems at work on it.
mod Cells
mod Snapshots
mod Buildings
mod Matching
mod Storage
mod Publish
mod Ingestion
mod Comparison
mod Api
mod History
