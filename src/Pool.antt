-- ===== src/Pool.antt =====
-- The disk buffer pool of observer/storage/os/buffer.
pub mod Header
pub mod Frames
pub mod Iterator
mod Tests
