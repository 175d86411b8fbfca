-- ===== src/Sdlc.antt =====
-- Proportional ceremony, evidence of delivery, and the bounds on repair and autonomy.
pub mod Decisions
pub mod Repair
pub mod Validation
pub mod Delivery
