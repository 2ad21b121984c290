-- ===== src/Reporting.antt =====
-- The weekly report: uis/backoffice/lib/reporting.ts.
pub mod Checks
pub mod Calls
pub mod Figures
pub mod Totals
mod Tests
