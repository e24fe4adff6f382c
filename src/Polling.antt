-- ===== src/Polling.antt =====
-- The polling hooks: resources/js/hooks/use-auto-load.ts, use-dashboard-refresh.ts and
-- use-scheduled-job-clock.ts.
pub mod Props
pub mod AutoLoad
pub mod History
pub mod Page
pub mod Clock
