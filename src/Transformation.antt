-- ===== src/Transformation.antt =====
-- src/utils/transformation.ts: counts by category and numeric reports.
pub mod Reports
pub mod Counts
mod Tests
