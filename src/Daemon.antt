-- ===== src/Daemon.antt =====
-- The daemon's supervision layer: crates/hallouminate-daemon/src.
pub mod Backoff
pub mod Heartbeat
pub mod Ladder
pub mod Churn
pub mod Debt
pub mod Backpressure
pub mod Maintenance
pub mod Gc
pub mod WatchBinding
pub mod WatchRegistry
pub mod WatchRegister
pub mod WatchAdmission
pub mod Supervisor
pub mod Trips
pub mod Watchdog
mod Tests
mod MaintenanceTests
mod WatchTests
