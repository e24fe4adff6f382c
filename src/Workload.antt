-- ===== src/Workload.antt =====
-- resources/js/components/dashboard/workload-table.tsx
pub mod Pools
pub mod Rows
