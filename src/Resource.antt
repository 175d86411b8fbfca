-- ===== src/Resource.antt =====
-- The shared resource guard (src/supervisor/resources.ts): leases on workers, browsers and builds.
pub mod Types
pub mod Limits
pub mod Store
pub mod Operations
pub mod Leases
pub mod Turn
pub mod Capacity
pub mod Runs
pub mod Fifo
pub mod Bounds
pub mod Owners
pub mod Reclaim
pub mod Fencing
pub mod Waiting
