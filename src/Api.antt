-- ===== src/Api.antt =====
-- Requests to the API: uis/backoffice/lib/api-client.ts and lib/friendly-error.ts.
pub mod Bodies
pub mod Leaks
pub mod Fields
pub mod Friendly
pub mod Safe
pub mod Requests
pub mod Sessions
pub mod Checked
pub mod Responses
pub mod Sent
pub mod Recorded
pub mod Placed
mod Tests
