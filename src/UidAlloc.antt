-- ===== src/UidAlloc.antt =====
-- internal/uidalloc: the table of host uid ranges.
pub mod Table
pub mod Ranges
pub mod Disjoint
pub mod Lost
mod Examples
