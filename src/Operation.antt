-- ===== src/Operation.antt =====
-- src-tauri/src/domain/operation.rs, repositories/operation_repository.rs and
-- services/operation_service.rs: the runs of maintenance tasks on a server, and their steps.
pub mod Status
pub mod Table
pub mod Action
pub mod Service
pub mod Restore
