-- ===== src/Audit.antt =====
-- internal/audit: the ledger's rows, their redaction and the chain of their digests.
pub mod Record
pub mod Redact
pub mod Keys
pub mod Clean
pub mod Ledger
pub mod Chain
pub mod Tamper
pub mod Journal
pub mod Writers
pub mod Verified
mod Examples
