-- ===== src/Approval.antt =====
-- internal/approval: the human-in-the-loop gate, a store of tickets and their life cycle.
-- `marshal` stands for `json.Marshal` on params: `none` is an error, and equal texts are equal params.
pub mod Ticket
pub mod Manager
pub mod Claims
pub mod Advance
pub mod Evolution
pub mod Steps
pub mod OneShot
pub mod Branches
mod Examples
