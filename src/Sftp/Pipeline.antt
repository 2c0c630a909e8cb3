-- ===== src/Sftp/Pipeline.antt =====
-- src-tauri/src/core/sftp/pipeline.rs: which chunks of a file a download asks for at once, and the
-- buffer that puts the answers back in order. Both are proved about in the modules below.
pub mod Window
pub mod Buffer
pub mod Chunking
