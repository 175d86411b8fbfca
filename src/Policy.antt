-- ===== src/Policy.antt =====
-- Project trust policies: promotion along the trust ladder, grades, and the permission to execute.
pub mod Types
pub mod Store
pub mod Grades
pub mod Runs
pub mod Ladder
pub mod Shadow
pub mod Limits
pub mod Execution
