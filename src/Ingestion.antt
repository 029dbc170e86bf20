-- ===== src/Ingestion.antt =====
-- src/ingestion/: fetching, repairing and normalizing the buildings of one snapshot.
pub mod BuildingCategory
pub mod Validate
pub mod Aoi
pub mod OhsomeClient
pub mod Snapshot
