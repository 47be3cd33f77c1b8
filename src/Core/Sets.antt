-- ===== src/Core/Sets.antt =====
-- crates/dodb-core/src/transaction.rs: `ReadSet` and `WriteSet`, each the entries of its map.
use dodb.Core.Key.{DocumentKey, cmp}
use dodb.Core.Transaction.{WriteIntent}
use dodb.Map
use dodb.Map.{find, by_order}
use dodb.Prelude.{ℕ, List, Option, none, some}

abbrev pub ReadSet : Type 0
ReadSet = List (DocumentKey × ℕ)

abbrev pub WriteSet : Type 0
WriteSet = List (DocumentKey × WriteIntent)

-- `entry(key).or_insert(revision)`
abbrev pub or_insert : DocumentKey → ℕ → Option ℕ → ReadSet → ReadSet
or_insert key revision none reads = Map.insert cmp key revision reads
or_insert key revision (some seen) reads = reads

unfoldable pub record_read : DocumentKey → ℕ → ReadSet → ReadSet
record_read key revision reads = or_insert key revision (find cmp key reads) reads

unfoldable pub get_read : ReadSet → DocumentKey → Option ℕ
get_read reads key = find cmp key reads

unfoldable pub put_write : DocumentKey → List ℕ → WriteSet → WriteSet
put_write key value writes = Map.insert cmp key (WriteIntent.put value) writes

unfoldable pub delete_write : DocumentKey → WriteSet → WriteSet
delete_write key writes = Map.insert cmp key WriteIntent.delete writes

unfoldable pub get_write : WriteSet → DocumentKey → Option WriteIntent
get_write writes key = find cmp key writes
