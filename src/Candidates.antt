-- ===== src/Candidates.antt =====
-- Candidates of the website: uis/website/lib/candidate.ts.
pub mod Records
pub mod Updates
pub mod Shown
mod Tests
