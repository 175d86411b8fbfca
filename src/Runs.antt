-- ===== src/Runs.antt =====
-- Runs, their events and verifications (src/domain/run-service.ts), and the decisions that
-- authorise paid ones (src/domain/decision-service.ts).
pub mod Decisions
pub mod Types
pub mod Create
pub mod Records
pub mod Authority
pub mod Steps
pub mod Stamps
pub mod Paid
pub mod Events
pub mod History
