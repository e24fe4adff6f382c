-- ===== src/Payload.antt =====
-- resources/js/components/payload/json-payload.tsx
pub mod Text
pub mod Token
pub mod Highlight
pub mod Tree
pub mod Serialize
pub mod Shown
pub mod Scroll
pub mod View
