-- ===== src/Format.antt =====
-- Texts that the page shows: resources/js/lib/format-duration.ts, format-count.ts,
-- live-pending-total.ts and page-name.ts.
pub mod Duration
pub mod DurationLaws
