-- ===== src/Completion.antt =====
-- The completion proof (src/domain/completion.ts): what must be in the database before a task may
-- be completed, and the one task of a repository that may be promoted.
pub mod Criteria
pub mod Verified
pub mod Review
pub mod Proof
pub mod Clear
pub mod Sound
pub mod Findings
pub mod Reviewed
pub mod Binding
pub mod Promotable
pub mod Provenance
pub mod Transition
pub mod Legacy
