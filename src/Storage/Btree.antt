-- ===== src/Storage/Btree.antt =====
-- crates/dodb-storage/src/btree: the B+Tree's page format.
pub mod Entries
pub mod Slots
pub mod LeafPage
pub mod InternalPage
pub mod ChainPages
pub mod Codec
pub mod Cache
mod Tests
