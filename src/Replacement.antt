-- ===== src/Replacement.antt =====
-- The replacement policies of the buffer pool: observer/storage/os/replacement/replacement_policy.h
-- and replacement_policy.cpp. `Frame` is the page identifier of observer/storage/os/page/frame.h.
pub mod Frame
pub mod Ordered
pub mod FrameMap
pub mod LruK
pub mod Clock
mod Tests
