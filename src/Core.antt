-- ===== src/Core.antt =====
-- crates/dodb-core/src: the semantic types that every other crate shares.
pub mod Key
pub mod Revision
pub mod Transaction
pub mod Error
pub mod Validate
pub mod Sets
mod Tests
