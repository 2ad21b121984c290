-- ===== src/Session.antt =====
-- The session of a browser tab: uis/backoffice/lib/auth-storage.ts (uis/website/lib/auth-storage.ts
-- differs only in the path after signing in).
pub mod Token
pub mod Paths
mod Tests
