-- ===== src/Incidents.antt =====
-- Incident reports: uis/backoffice/lib/incident.ts, types/incident.ts,
-- services/incidents-service.ts and, of components/incidents, the change of a status.
pub mod Vocabulary
pub mod Lifecycle
pub mod Form
pub mod Payloads
pub mod Filters
pub mod Normalised
pub mod Counts
pub mod Statuses
mod Tests
