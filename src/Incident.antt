-- ===== src/Incident.antt =====
-- internal/incident: the life of an incident.
pub mod Schedule
pub mod Store
pub mod Service
pub mod Handle
pub mod Resolve
pub mod Active
mod Tests
pub mod Lifecycle
