-- ===== src/Search.antt =====
-- src/utils/search.ts: linear and binary search, and the searches by id.
pub mod Linear
pub mod Binary
mod Tests
