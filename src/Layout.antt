-- ===== src/Layout.antt =====
-- The layout of every page (resources/js/layouts/horizon-layout.tsx).
pub mod Counts
pub mod Cache
