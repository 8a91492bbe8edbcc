-- ===== src/State.antt =====
-- internal/state/manager.go: the lifecycle state machine of a task. A Go `time.Time` is a number of
-- nanoseconds, and 0 is the zero time of `IsZero`.
pub mod Fsm
pub mod Trail
mod Examples
