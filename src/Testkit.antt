-- ===== src/Testkit.antt =====
-- crates/dodb-testkit/src: the models that the tests compare the store with.
pub mod Reference
mod Tests
