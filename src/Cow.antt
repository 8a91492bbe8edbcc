-- ===== src/Cow.antt =====
-- The disk images of a sandbox: internal/cow.
pub mod Layout
mod Settled
mod Sized
mod Converge
pub mod Covered
mod Examples
