-- ===== src/Jobs.antt =====
-- The job list's query controls and its filter catalogue.
pub mod QueryControls
pub mod Trim
pub mod Submission
pub mod Catalog
pub mod CatalogLaws
pub mod FailedActions
