-- ===== src/Routing.antt =====
-- Routing of a run to a provider's model.
pub mod Account
pub mod Types
pub mod Router
