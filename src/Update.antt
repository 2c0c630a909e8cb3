-- ===== src/Update.antt =====
-- src-tauri/src/domain/update.rs, core/updates and services/update_service.rs: how an update of the
-- program is found, downloaded and installed.
pub mod Release
pub mod Lifecycle
pub mod Policy
pub mod Check
pub mod Staging
pub mod Service
pub mod Shown
pub mod Manager
pub mod Safe
pub mod Installs
pub mod Succeeds
