-- ===== src/Pool.antt =====
-- internal/pool: the warm pool of sandboxes and the tenants' quotas. The cpu of templates, sandboxes,
-- quotas and counters is a Go int that no code checks, kept as its 64-bit word in two's complement. The
-- other `int` fields are naturals: memory is parsed without a sign, and a quota with a negative limit of
-- another kind is left out. `Factory` and `Destroyer` run without the lock: their results are
-- arguments, and a claim is two steps between which the manager may change.
pub mod Memory
pub mod Types
pub mod Counters
pub mod Claim
pub mod Commit
pub mod Mutate
pub mod Pause
pub mod Tally
pub mod Signed
pub mod Books
pub mod Balance
pub mod Returns
pub mod Pausing
pub mod Calls
pub mod Limits
pub mod Granted
pub mod Lossless
pub mod Restore
pub mod Restart
mod Examples
