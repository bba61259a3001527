-- ===== src/Services.antt =====
-- src/service-management: starting, stopping and restarting registered services together.
pub mod State
pub mod Stop
pub mod Plan
pub mod Control
pub mod Readiness
pub mod Reconcile
pub mod Examples
