-- ===== src/Artifact.antt =====
-- internal/artifact: the gate between an agent's claim of success and a release.
pub mod Gate
pub mod Order
pub mod Hash
pub mod Release
mod Examples
