-- ===== src/Requests.antt =====
-- The coordination of background and foreground visits:
-- resources/js/lib/inertia-request-coordination.ts.
pub mod Coordination
pub mod Cancellation
