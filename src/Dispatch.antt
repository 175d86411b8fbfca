-- ===== src/Dispatch.antt =====
-- Parallel dispatch (src/supervisor/parallel-dispatch.ts): batches of tasks with disjoint paths, the
-- merge queue that lands them one at a time, and the completion gate behind it.
pub mod Paths
pub mod Batch
pub mod Disjoint
pub mod Selected
pub mod Gate
pub mod Promoted
pub mod Canonical
pub mod Landing
pub mod Checked
pub mod Landed
