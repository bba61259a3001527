-- ===== src/Scheduling.antt =====
-- src/service-scheduling/domain: when a service is expected to be available.
pub mod Errors
pub mod Weekday
pub mod LocalTime
pub mod Window
pub mod Schedule
pub mod Policy
pub mod Evaluator
pub mod Override
pub mod Transitions
pub mod Examples
