-- ===== src/Policy.antt =====
-- internal/policy: the gateway that every tool call of an agent passes.
pub mod Gateway
pub mod Execute
pub mod Rules
pub mod Verdicts
pub mod Observed
pub mod Approvals
mod Examples
