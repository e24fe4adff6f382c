-- ===== src/Query.antt =====
-- The query of the address: resources/js/lib/url-query.ts and its users.
pub mod Params
pub mod Merge
pub mod Address
pub mod Precedence
pub mod Stable
