-- ===== src/Routes.antt =====
-- The vocabulary of the telemetry: uis/backoffice/lib/telemetry-routes.ts.
pub mod Classes
pub mod Fingerprint
pub mod Templates
pub mod Hidden
pub mod Shapes
mod Tests
