-- ===== src/Accounts.antt =====
-- Accounts: uis/backoffice/lib/auth.ts and types/auth.ts (uis/website/lib/auth.ts is the same code).
pub mod Email
pub mod Forms
pub mod Accepts
pub mod Payloads
pub mod Edits
pub mod Users
pub mod Service
pub mod SignIn
pub mod SignOut
mod Tests
