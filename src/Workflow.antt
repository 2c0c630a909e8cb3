-- ===== src/Workflow.antt =====
-- Workflows: src-tauri/src/domain/workflow.rs, core/workflows and repositories/workflow_repository.rs.
pub mod Status
pub mod Run
pub mod Condition
pub mod Graph
pub mod Cycle
pub mod Validation
pub mod Runner
pub mod Attempts
