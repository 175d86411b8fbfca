-- ===== src/Records.antt =====
-- The rows of the evidence tables, shared by the completion proof, the runs and the decisions.
pub mod Types
