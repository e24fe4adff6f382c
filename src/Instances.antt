-- ===== src/Instances.antt =====
-- The commands to Horizon's instances and supervisors (resources/js/components/dashboard/
-- horizon-instances-actions.tsx) and their table (resources/js/components/dashboard/supervisors-table.tsx).
pub mod Host
pub mod Command
pub mod CommandLaws
pub mod Display
pub mod Agreement
pub mod Terminate
pub mod Scaling
