-- ===== src/Permissions.antt =====
-- packages/permissions: the checkpoint that every tool call passes.
pub mod Policy
pub mod Repository
pub mod Manager
pub mod Resolution
mod Tests
