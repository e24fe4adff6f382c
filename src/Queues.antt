-- ===== src/Queues.antt =====
-- The queue actions menu (resources/js/components/queues/queue-actions-menu.tsx).
pub mod Menu
pub mod Items
pub mod Pausing
pub mod Overview
pub mod Activity
