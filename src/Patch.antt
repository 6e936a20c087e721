-- ===== src/Patch.antt =====
-- src-tauri/src/coding_patch.rs: edits of several files as one transaction with a journal, roll-back
-- and recovery after a crash.
pub mod World
pub mod Commit
pub mod Recovery
pub mod Paths
pub mod Disk
