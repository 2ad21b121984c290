-- ===== src/Inventory.antt =====
-- The inventory screens' logic: uis/backoffice/lib/inventory.ts and lib/inventory-telemetry.ts.
pub mod Stock
pub mod Guards
pub mod Calls
pub mod Errors
mod Tests
