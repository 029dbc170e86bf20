-- ===== src/Matching/Changeset.antt =====
-- src/matching/changeset.py
pub mod Components
pub mod Records
pub mod Build
