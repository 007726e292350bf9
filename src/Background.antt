-- ===== src/Background.antt =====
-- Background tasks: packages/ai-core/src/background-tasks.ts and the manager of
-- packages/agent-runtime/src/runtime/background-task-manager.ts.
pub mod Task
pub mod Manager
pub mod Lookup
pub mod Operations
pub mod Start
pub mod Settlement
pub mod History
pub mod Isolation
pub mod Recovery
mod Tests
