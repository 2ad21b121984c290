-- ===== src/Flow.antt =====
-- The telemetry of a form's lifecycle: uis/backoffice/hooks/useFlowTelemetry.ts.
pub mod Defs
pub mod Hook
pub mod Lifecycle
pub mod Ends
pub mod Attempts
mod Tests
