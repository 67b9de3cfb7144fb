-- ===== src/Drive.antt =====
-- internal/drive: the tree of a task's folders on Google Drive and the upload of its files, over
-- the store's database, with the rclone process as functions.
pub mod Logical
pub mod Checks
pub mod Upload
pub mod Run
pub mod Rows
pub mod Guarded
pub mod Copies
pub mod Safe
pub mod Evidence
pub mod Fewer
pub mod Ends
pub mod Complete
pub mod Tree
pub mod Tests
