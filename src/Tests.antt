-- ===== src/Tests.antt =====
-- Runs of the models at concrete inputs.
mod Resource
mod Lifecycle
mod Routing
mod Policy
mod Queue
mod Completion
mod Runs
mod Dispatch
mod Landing
mod Gate
mod Suggestions
mod Goals
mod Grades
mod Sdlc
