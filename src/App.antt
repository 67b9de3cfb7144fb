-- ===== src/App.antt =====
-- internal/app: the loop over the passes, and the pass of the uploads.
pub mod Pipeline
pub mod Drive
pub mod Cleanup
pub mod Stage
mod Tests
