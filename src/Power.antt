-- ===== src/Power.antt =====
-- src/power-management: when the machine is turned off, and the scheduler that does it.
pub mod Loop
pub mod Cursor
pub mod Tick
pub mod Interval
pub mod Claims
pub mod Shutdown
pub mod Examples
