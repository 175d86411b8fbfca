-- ===== src/Queue.antt =====
-- The durable task queue: guarded transitions of tasks and the workers' claims on them.
pub mod Types
pub mod Tasks
pub mod Claims
pub mod Leases
pub mod Guards
pub mod Age
pub mod Acquire
pub mod Recovery
pub mod Keys
pub mod Permission
pub mod Permitted
pub mod Steps
pub mod Grants
pub mod Commits
pub mod Runs
