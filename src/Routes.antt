-- ===== src/Routes.antt =====
-- resources/js/lib/horizon-route.ts: the routes of a dashboard that is mounted elsewhere.
pub mod Resolve
