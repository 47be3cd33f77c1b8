-- ===== src/Storage/Wal.antt =====
-- crates/dodb-storage/src/wal.rs: the write-ahead log.
pub mod Frame
pub mod Scan
pub mod Payload
pub mod Batches
pub mod Write
pub mod Log
pub mod Tests
