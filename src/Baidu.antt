-- ===== src/Baidu.antt =====
-- internal/baidu: the client of the Baidu service.
pub mod Retry
pub mod Remote
mod Tests
