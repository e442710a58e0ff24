-- ===== src/Samples.antt =====
-- Runs of the models at fixed inputs, and the theorems applied to them.
pub mod Daemon
pub mod Cards
pub mod Batches
pub mod Changes
pub mod Intake
pub mod Shutdown
pub mod Withdrawn
