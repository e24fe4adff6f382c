-- ===== src/Refresh.antt =====
-- The status of automatic refreshes: resources/js/lib/auto-refresh-status.ts.
pub mod Status
pub mod Count
pub mod Outcome
pub mod Refinement
pub mod Listeners
