-- ===== src/Matching.antt =====
-- src/matching/: comparing two snapshots.
pub mod Config
pub mod Crs
pub mod Features
pub mod Metrics
pub mod Candidates
pub mod Changeset
pub mod Render
pub mod Pipeline
