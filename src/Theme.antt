-- ===== src/Theme.antt =====
-- The colour scheme of the page (resources/js/hooks/use-color-scheme.tsx).
pub mod Scheme
pub mod Provider
pub mod Persistence
