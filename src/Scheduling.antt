-- ===== src/Scheduling.antt =====
-- Schedules: packages/ai-core/src/schedules.ts and packages/agent-runtime/src/runtime/scheduling.
mod Tests
pub mod Contract
pub mod Calendar
pub mod Calculator
pub mod Store
pub mod Scheduler
