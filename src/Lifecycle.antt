-- ===== src/Lifecycle.antt =====
-- The canonical task lifecycle (src/domain/lifecycle.ts).
pub mod Machine
pub mod Diagram
pub mod Traces
