-- ===== src/Storage.antt =====
-- crates/dodb-storage/src: pages, superblocks, the B+Tree page format and the write-ahead log.
pub mod Page
pub mod Superblock
pub mod Btree
pub mod Wal
mod Tests
