-- ===== src/Power/Shutdown.antt =====
-- The shutdown of the machine at an occurrence: readiness, preparation and execution.
pub mod Action
pub mod Blocker
pub mod Readiness
pub mod Records
pub mod Plan
pub mod Report
pub mod Attempt
pub mod Prepare
pub mod Wake
pub mod Result
pub mod Execute
pub mod Examples
