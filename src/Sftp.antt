-- ===== src/Sftp.antt =====
-- src-tauri/src/core/sftp: moving files over SFTP.
pub mod Pipeline
pub mod Download
