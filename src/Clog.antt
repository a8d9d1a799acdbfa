-- ===== src/Clog.antt =====
-- The write-ahead log: observer/storage/clog.
pub mod Entry
pub mod Writer
pub mod Buffer
pub mod Files
pub mod Reader
mod Tests
