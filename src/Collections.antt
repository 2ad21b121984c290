-- ===== src/Collections.antt =====
-- src/utils/collections.ts: searches by criteria, and sorting.
pub mod Filters
pub mod Search
pub mod Criteria
mod Tests
