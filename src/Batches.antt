-- ===== src/Batches.antt =====
-- The actions on a batch (resources/js/components/batches/batch-actions.tsx).
pub mod PendingJobs
pub mod FailedJobs
pub mod Search
pub mod Options
