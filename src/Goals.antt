-- ===== src/Goals.antt =====
-- The goals of the supervisor and the sessions attached to them (src/supervisor/state.ts).
pub mod Types
pub mod Store
pub mod Admitted
pub mod Live
pub mod Held
pub mod Sessions
pub mod Workshops
pub mod Receipt
pub mod Authority
pub mod Grade
pub mod Bound
pub mod Graded
pub mod Earned
pub mod Refused
pub mod Recovery
pub mod Replayed
