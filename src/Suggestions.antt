-- ===== src/Suggestions.antt =====
-- Suggested tasks (src/domain/task-service.ts, addSuggestion, rejectSuggestion, approveSuggestion).
pub mod Fingerprint
pub mod Store
pub mod Runs
pub mod Once
pub mod Closed
