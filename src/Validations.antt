-- ===== src/Validations.antt =====
-- src/utils/validations.ts: validation of the business records.
pub mod Rules
pub mod Records
pub mod Laws
pub mod Accepts
mod Tests
