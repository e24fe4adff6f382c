-- ===== src/Tests.antt =====
-- The theorems at concrete inputs.
mod Transitions
mod Refresh
mod Requests
mod Tables
mod Jobs
mod Polling
mod Pages
mod Instances
mod Payload
mod Dashboard
