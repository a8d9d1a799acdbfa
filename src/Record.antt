-- ===== src/Record.antt =====
-- The record manager of observer/storage/record.
pub mod Page
pub mod Log
pub mod File
mod Tests
