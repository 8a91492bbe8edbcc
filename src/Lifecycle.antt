-- ===== src/Lifecycle.antt =====
-- Automatic pauses of idle tasks: internal/lifecycle.
pub mod Timers
pub mod Stale
pub mod Pause
pub mod Commit
mod Examples
