-- ===== src/Suppliers.antt =====
-- Suppliers: uis/backoffice/lib/supplier.ts.
pub mod Records
pub mod Form
pub mod Answers
pub mod Echo
mod Tests
