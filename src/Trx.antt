-- ===== src/Trx.antt =====
-- Multi-version transactions: observer/storage/trx/mvcc_trx.h, mvcc_trx.cpp, trx.h and the replayer of
-- mvcc_trx_log.cpp. The tables are one map from record identifiers to rows.
pub mod Mvcc
pub mod Store
pub mod Isolation
pub mod Rollback
pub mod Replay
pub mod Commit
pub mod Anomalies
mod Tests
