-- ===== src/Transitions.antt =====
-- Pause and continue requests that Horizon has not yet confirmed: resources/js/hooks/
-- use-process-transitions.ts, over the types of resources/js/types/dashboard.ts.
-- `Model` has the pure functions, `Hook` the state of `useProcessTransitions` and its handlers.
pub mod Model
pub mod Hook
pub mod Reconcile
pub mod Settled
pub mod Expiry
pub mod Effects
pub mod Run
pub mod Invariant
pub mod Shape
pub mod Exclusion
pub mod Tokens
pub mod Timer
