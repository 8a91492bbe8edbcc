-- ===== src/Incident.antt =====
-- internal/incident: the answer to an anomaly, on top of the credential broker and the state machine.
pub mod Controller
pub mod Sides
pub mod Containment
mod Examples
