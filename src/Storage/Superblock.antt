-- ===== src/Storage/Superblock.antt =====
-- crates/dodb-storage/src/superblock.rs: the two copies of the database's root metadata.
pub mod RoundTrip
pub mod Choose
pub mod Torn
mod Tests
use dodb.Core.Error.{Error, Result, invalid_input, corruption, unsupported_format}
use dodb.Bytes.{slice, copy_at, zeros, le_bytes, u16_at, u32_at, u64_at, eq_bytes, U64}
use dodb.Storage.Page.{page_size}
use dodb.Prelude.{
  ℕ, ◌-◌, ◌+◌, Bool, true, false, not, List, [], ◌∷◌, Option, none, some, ok, err, ◌>>=◌, ◌>>◌,
  fail_if, ◌==◌, leb, length, if◌then◌else◌,
}

abbrev pub superblock_format_version : ℕ
superblock_format_version = 1

-- `*b"DSBK"`
abbrev pub superblock_magic : List ℕ
superblock_magic = b'D' ∷ b'S' ∷ b'B' ∷ b'K' ∷ []

abbrev checksum_offset : ℕ
checksum_offset = 90

-- `u64::MAX`
abbrev pub null_page_id : ℕ
null_page_id = U64 - 1

pub record Superblock : Type 0 where
  pub format_version : ℕ
  pub generation : ℕ
  pub database_uuid : List ℕ
  pub tenant_id : ℕ
  pub shard_id : ℕ
  pub shard_epoch : ℕ
  pub page_size : ℕ
  pub root_page_id : Option ℕ
  pub free_list_head : Option ℕ
  pub high_water_page_id : Option ℕ
  pub checkpoint_lsn : ℕ
  pub checksum : ℕ

-- `Superblock::new`
unfoldable pub new_superblock : ℕ → List ℕ → ℕ → ℕ → ℕ → Superblock
new_superblock generation database_uuid tenant_id shard_id shard_epoch = record {
  format_version = superblock_format_version;
  generation = generation;
  database_uuid = database_uuid;
  tenant_id = tenant_id;
  shard_id = shard_id;
  shard_epoch = shard_epoch;
  page_size = page_size;
  root_page_id = none;
  free_list_head = none;
  high_water_page_id = none;
  checkpoint_lsn = 0;
  checksum = 0;
}

pub data SuperblockSlot : Type 0 where
  a b : SuperblockSlot

pub record SelectedSuperblock : Type 0 where
  pub slot : SuperblockSlot
  pub superblock : Superblock

unfoldable pub encode_page_id : Option ℕ → ℕ
encode_page_id none = null_page_id
encode_page_id (some page_id) = page_id

unfoldable pub decode_page_id : ℕ → Option ℕ
decode_page_id value = if value == null_page_id then none else some value

module _ (crc32c : List ℕ → ℕ) where
  unfoldable pub superblock_checksum : List ℕ → ℕ
  superblock_checksum page = crc32c (copy_at checksum_offset 4 (zeros 4) page)

  -- The page before its checksum is filled in.
  unfoldable pub superblock_fields : Superblock → List ℕ
  superblock_fields s =
      let p0 = copy_at 0 4 superblock_magic (zeros page_size) in
      let p1 = copy_at 4 2 (le_bytes 2 s.format_version) p0 in
      let p2 = copy_at 6 8 (le_bytes 8 s.generation) p1 in
      let p3 = copy_at 14 16 s.database_uuid p2 in
      let p4 = copy_at 30 8 (le_bytes 8 s.tenant_id) p3 in
      let p5 = copy_at 38 8 (le_bytes 8 s.shard_id) p4 in
      let p6 = copy_at 46 8 (le_bytes 8 s.shard_epoch) p5 in
      let p7 = copy_at 54 4 (le_bytes 4 s.page_size) p6 in
      let p8 = copy_at 58 8 (le_bytes 8 (encode_page_id s.root_page_id)) p7 in
      let p9 = copy_at 66 8 (le_bytes 8 (encode_page_id s.free_list_head)) p8 in
      let p10 = copy_at 74 8 (le_bytes 8 (encode_page_id s.high_water_page_id)) p9 in
      copy_at 82 8 (le_bytes 8 s.checkpoint_lsn) p10

  unfoldable pub encode_superblock : Superblock → Result (List ℕ)
  encode_superblock s = do
    fail_if (not (s.format_version == superblock_format_version)) unsupported_format
    fail_if (not (s.page_size == page_size)) invalid_input
    let page = superblock_fields s
    ok (copy_at checksum_offset 4 (le_bytes 4 (superblock_checksum page)) page)

  unfoldable pub decode_superblock : List ℕ → Result Superblock
  decode_superblock bytes = do
    fail_if (not (length bytes == page_size)) corruption
    fail_if (not (eq_bytes (slice 0 4 bytes) superblock_magic)) corruption
    let format_version = u16_at 4 bytes
    fail_if (not (format_version == superblock_format_version)) unsupported_format
    let stored_checksum = u32_at checksum_offset bytes
    fail_if (not (stored_checksum == superblock_checksum bytes)) corruption
    let stored_page_size = u32_at 54 bytes
    fail_if (not (stored_page_size == page_size)) unsupported_format
    ok (record {
      format_version = format_version;
      generation = u64_at 6 bytes;
      database_uuid = slice 14 16 bytes;
      tenant_id = u64_at 30 bytes;
      shard_id = u64_at 38 bytes;
      shard_epoch = u64_at 46 bytes;
      page_size = stored_page_size;
      root_page_id = decode_page_id (u64_at 58 bytes);
      free_list_head = decode_page_id (u64_at 66 bytes);
      high_water_page_id = decode_page_id (u64_at 74 bytes);
      checkpoint_lsn = u64_at 82 bytes;
      checksum = stored_checksum;
    })

-- The `match` of `choose_superblock` on the two results, its two early returns included.
unfoldable pub select : Result Superblock → Result Superblock → Result SelectedSuperblock
select (err unsupported_format) second = err unsupported_format
select (ok first) (err unsupported_format) = err unsupported_format
select (ok first) (ok second) =
    if leb second.generation first.generation
    then ok (record { slot = SuperblockSlot.a; superblock = first })
    else ok (record { slot = SuperblockSlot.b; superblock = second })
select (ok first) (err e) = ok (record { slot = SuperblockSlot.a; superblock = first })
select (err e) (err unsupported_format) = err unsupported_format
select (err e) (ok second) = ok (record { slot = SuperblockSlot.b; superblock = second })
select (err e) (err f) = err corruption

unfoldable pub choose_superblock : (List ℕ → ℕ) → List ℕ → List ℕ → Result SelectedSuperblock
unfolding select
choose_superblock crc32c slot_a slot_b =
    select (decode_superblock crc32c slot_a) (decode_superblock crc32c slot_b)
