-- ===== src/State.antt =====
-- internal/state: the durable store of tasks, files, batches and owned objects.
pub mod Model
pub mod Transitions
pub mod Db
pub mod Staging
pub mod Download
pub mod Drive
pub mod Cleanup
pub mod CleanupRoot
pub mod Tasks
pub mod Manifest
pub mod Progress
pub mod Rows
pub mod Evolves
pub mod Grants
pub mod Quiet
pub mod Invert
pub mod Safety
pub mod History
pub mod Chunks
pub mod Planning
pub mod Tests
