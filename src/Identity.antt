-- ===== src/Identity.antt =====
-- internal/identity: the credential broker.
pub mod Broker
pub mod Lease
pub mod Denied
pub mod Withdrawn
pub mod Forever
pub mod Index
pub mod Linked
pub mod RoundTrip
mod Examples
