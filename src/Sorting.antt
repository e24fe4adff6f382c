-- ===== src/Sorting.antt =====
-- Client-side sorting of table rows: resources/js/hooks/use-sortable-rows.ts.
pub mod Rows
pub mod Order
pub mod Uniform
pub mod Result
pub mod Persisted
pub mod Reload
