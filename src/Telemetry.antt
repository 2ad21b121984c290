-- ===== src/Telemetry.antt =====
-- uis/backoffice/services/telemetry-service.ts: the queue of telemetry events of one page.
pub mod Defs
pub mod Pattern
pub mod Retry
pub mod Service
pub mod Growth
pub mod Bounds
pub mod Kept
pub mod History
pub mod Hide
pub mod Drops
pub mod Reports
mod Tests
