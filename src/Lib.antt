-- ===== src/Lib.antt =====
-- dodb: an embedded document store, its keys, page formats, write-ahead log and reference model.
--
-- The store keeps documents under keys of two byte strings, a partition key and a sort key.
-- `dodb-core` defines the keys with an order-preserving encoding, revisions and transactions.
-- `dodb-testkit` has a reference database, the model of transactions, queries and scans that the
-- tests compare the store with. `dodb-storage` keeps a B+Tree over encoded keys in a file of
-- 4096-byte pages: a page has a header with a checksum (page.rs), pages 0 and 1 hold two
-- superblocks of which the newer valid one is used (superblock.rs), the body of a tree page is in
-- one of four layouts (btree/format.rs), and changed pages are first appended to a write-ahead
-- log of checksummed frames (wal.rs).
--
-- Which file models which part:
--
-- - Prelude and Bytes: shared lemmas and notation. A byte is a natural number below 256, a buffer
--   is a list of them, a machine word is a natural number with its range as a hypothesis where a
--   codec depends on it. `copy_at` is `copy_from_slice` into a range of a buffer, `le_bytes` and
--   `from_le` are `to_le_bytes` and `from_le_bytes`.
--
-- - Core/Key.antt: crates/dodb-core/src/key.rs (`DocumentKey`, `encode`, `encoded_len`, `decode`,
--   the derived order). Its children hold the proofs.
--
-- - Core/Revision.antt, Core/Transaction.antt, Core/Validate.antt, Core/Error.antt: revision.rs,
--   transaction.rs and error.rs of crates/dodb-core/src. The messages of errors are left out.
--
-- - Storage/Page.antt: crates/dodb-storage/src/page.rs (`encode_page`, `decode_page_at`,
--   `decode_page`, `page_checksum`).
--
-- - Storage/Superblock.antt: crates/dodb-storage/src/superblock.rs (`Superblock`,
--   `encode_superblock`, `decode_superblock`, `choose_superblock`). Its child Torn treats a write
--   of one copy that stops after some bytes: the file then has the new bytes in front of the old
--   ones.
--
-- - Storage/Btree: crates/dodb-storage/src/btree/format.rs. Entries has the decoded data and the
--   readers, Slots the slotted layout that leaf and internal pages share, LeafPage, InternalPage
--   and ChainPages the four bodies, Codec the dispatch on the page type.
--
-- - Storage/Wal: crates/dodb-storage/src/wal.rs. Frame has `encode_frame`, `append_frame` and
--   `decode_header`, Scan the first loop of `scan_wal`, Batches its second loop, Payload the
--   payloads of the three kinds of record. Write is `append_group_commit`, with Write/Steps the
--   steps that write to the file and may fail; Log is `WalLog` with `scan_wal`, `open` and
--   `resume_after`, and Log/Group `append_group`, `append_commit` and `reset`. Log/Holds states
--   the invariant of a log: its file is the bytes of frames with rising LSNs whose scan finds the
--   committed batches, perhaps with page images of a torn batch pending. A file is the list of
--   its bytes, and a crash leaves a prefix of what was being appended.
--
-- - Storage/Btree/Cache.antt: crates/dodb-storage/src/btree/cache.rs (`PageCache`), with the
--   clock that wraps around.
--
-- - Map.antt: `BTreeMap`, the list of its entries in the order of the keys, with the order as a
--   parameter and the laws of `Ord` as an interface. Core/Key/Order.antt fills the interface for
--   document keys, Map/Order.antt for machine words.
--
-- - Testkit/Reference.antt and Testkit/Reference/Transaction.antt:
--   crates/dodb-testkit/src/reference.rs (`ReferenceDb`, `ReferenceTransaction`), over the read
--   and write sets of Core/Sets.antt. An operation returns the database as it leaves it, with its
--   result.
--
-- - Core/Tests.antt, Storage/Tests.antt, Storage/Superblock/Tests.antt, Storage/Wal/Tests.antt,
--   Storage/Wal/Log/Tests.antt, Storage/Btree/Tests.antt, Storage/Btree/Cache/Tests.antt and
--   Testkit/Tests.antt: runs and applications of the theorems at concrete inputs.
--
-- CRC32C is a function of another crate; it is a parameter `crc32c` of the page and superblock
-- codecs, with the range of its results as a hypothesis. Loops are structural recursion on the
-- list that the source walks, or on the number of slots left. The scan of the log runs on fuel,
-- the length of the file; each frame takes 52 bytes at least, and the theorem on the scan shows
-- that this is enough. The evictions of the cache run on fuel, the number of its entries; each
-- round drops one, and the theorem on its size shows that this is enough.
--
-- Not modelled: in the write-ahead log, fault injection, short writes, I/O errors, the time spent
-- and the `usize` limits of counters in memory; the tree operations over pages with their
-- checker, which stand on the format, the cache and the log; the coordinator, the service, the
-- protocol, the client and the server (threads, timers and network I/O), the soak runner, benches
-- and tests.
pub mod Prelude
pub mod Bytes
pub mod Map
pub mod Core
pub mod Storage
pub mod Testkit
