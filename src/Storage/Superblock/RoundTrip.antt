-- ===== src/Storage/Superblock/RoundTrip.antt =====
-- superblock.rs: `encode_superblock` and `decode_superblock` together.
use dodb.Bytes.{
  slice, copy_at, zeros, le_bytes, from_le, u16_at, u32_at, u64_at, U32, U64, from_le-le_bytes,
}
use dodb.Storage.Superblock.{
  Superblock, superblock_magic, encode_page_id, decode_page_id, superblock_checksum,
  superblock_fields, encode_superblock, decode_superblock,
}
use dodb.Prelude.{
  ℕ, ◌-◌, ◌<◌, ◌≡◌, refl, ap, subst, ◌∙◌, List, Option, none, some, ok, length, spell, spell-length,
  arith,
}

-- A page id that is not the null mark.
abbrev pub IsPageRef : Option ℕ → Type 0
IsPageRef none = Unit
IsPageRef (some page_id) = page_id < U64 - 1

-- The fields hold values of their machine types.
pub record IsSuperblock (s : Superblock) : Type 0 where
  pub generation_u64 : s.generation < U64
  pub uuid_size : length s.database_uuid ≡ 16
  pub tenant_u64 : s.tenant_id < U64
  pub shard_u64 : s.shard_id < U64
  pub epoch_u64 : s.shard_epoch < U64
  pub root_ref : IsPageRef s.root_page_id
  pub free_ref : IsPageRef s.free_list_head
  pub high_water_ref : IsPageRef s.high_water_page_id
  pub lsn_u64 : s.checkpoint_lsn < U64

page_id_bound : (p : Option ℕ) → IsPageRef p → encode_page_id p < U64
unfolding encode_page_id
page_id_bound none h = omega arith
page_id_bound (some p) h = omega arith

decode_page_id-encode_page_id : (p : Option ℕ) → IsPageRef p → decode_page_id (encode_page_id p) ≡ p
unfolding encode_page_id decode_page_id
decode_page_id-encode_page_id none h = refl
decode_page_id-encode_page_id (some p) h = ground arith

-- The bytes carry these fields, and their checksum is right.
record Carries (crc32c : List ℕ → ℕ) (bytes : List ℕ) (s : Superblock) : Type 0 where
  size : length bytes ≡ 4096
  magic : slice 0 4 bytes ≡ superblock_magic
  version : u16_at 4 bytes ≡ 1
  current : s.format_version ≡ 1
  checksum : u32_at 90 bytes ≡ s.checksum
  intact : superblock_checksum crc32c bytes ≡ s.checksum
  stored_size : u32_at 54 bytes ≡ 4096
  page_size : s.page_size ≡ 4096
  generation : u64_at 6 bytes ≡ s.generation
  uuid : slice 14 16 bytes ≡ s.database_uuid
  tenant : u64_at 30 bytes ≡ s.tenant_id
  shard : u64_at 38 bytes ≡ s.shard_id
  epoch : u64_at 46 bytes ≡ s.shard_epoch
  root : decode_page_id (u64_at 58 bytes) ≡ s.root_page_id
  free : decode_page_id (u64_at 66 bytes) ≡ s.free_list_head
  high_water : decode_page_id (u64_at 74 bytes) ≡ s.high_water_page_id
  lsn : u64_at 82 bytes ≡ s.checkpoint_lsn

decode-Carries :
    (crc32c : List ℕ → ℕ) (bytes : List ℕ) (s : Superblock)
    → Carries crc32c bytes s
    → decode_superblock crc32c bytes ≡ ok s
unfolding decode_superblock
decode-Carries crc32c bytes s c =
    rw
      (
        c.size, c.magic, c.version, c.checksum, c.intact, c.stored_size, c.generation, c.uuid,
        c.tenant, c.shard, c.epoch, c.root, c.free, c.high_water, c.lsn,
      )
      (ground (arith, c.current, c.page_size))

module _ (crc32c : List ℕ → ℕ) (s : Superblock) where
  sum : ℕ
  sum = superblock_checksum crc32c (superblock_fields crc32c s)

  unfoldable pub sealed : List ℕ
  unfolding sum
  sealed = copy_at 90 4 (le_bytes 4 sum) (superblock_fields crc32c s)

-- The uuid written out, so that the later offsets compute.
abbrev pub spelled : Superblock → Superblock
spelled s = record s { database_uuid = spell 16 s.database_uuid }

page_ref :
    (p : Option ℕ) → IsPageRef p → decode_page_id (from_le (le_bytes 8 (encode_page_id p))) ≡ p
page_ref p h =
    ap decode_page_id (from_le-le_bytes 8 (encode_page_id p) (page_id_bound p h))
    ∙ decode_page_id-encode_page_id p h

module _ (crc32c : List ℕ → ℕ) (s : Superblock) where
  sum-bound : ((bytes : List ℕ) → crc32c bytes < U32) → sum crc32c (spelled s) < U32
  unfolding sum superblock_checksum
  sum-bound crc_u32 = crc_u32 _

  intact : superblock_checksum crc32c (sealed crc32c (spelled s)) ≡ sum crc32c (spelled s)
  unfolding sealed superblock_checksum superblock_fields copy_at zeros le_bytes
  intact = refl

  Carries-sealed :
      IsSuperblock (spelled s)
      → ((bytes : List ℕ) → crc32c bytes < U32)
      → s.format_version ≡ 1
      → s.page_size ≡ 4096
      → Carries crc32c
          (sealed crc32c (spelled s))
          (record s { database_uuid = spell 16 s.database_uuid; checksum = sum crc32c (spelled s) })
  unfolding sealed superblock_fields slice copy_at zeros le_bytes
  Carries-sealed v crc_u32 version size = record {
    size = refl;
    magic = refl;
    version = from_le-le_bytes 2 s.format_version (omega arith) ∙ version;
    current = version;
    checksum = from_le-le_bytes 4 (sum crc32c (spelled s)) (sum-bound crc_u32);
    intact = intact;
    stored_size = from_le-le_bytes 4 s.page_size (omega arith) ∙ size;
    page_size = size;
    generation = from_le-le_bytes 8 s.generation v.generation_u64;
    uuid = refl;
    tenant = from_le-le_bytes 8 s.tenant_id v.tenant_u64;
    shard = from_le-le_bytes 8 s.shard_id v.shard_u64;
    epoch = from_le-le_bytes 8 s.shard_epoch v.epoch_u64;
    root = page_ref s.root_page_id v.root_ref;
    free = page_ref s.free_list_head v.free_ref;
    high_water = page_ref s.high_water_page_id v.high_water_ref;
    lsn = from_le-le_bytes 8 s.checkpoint_lsn v.lsn_u64;
  }

  decode-spelled :
      IsSuperblock s
      → ((bytes : List ℕ) → crc32c bytes < U32)
      → s.format_version ≡ 1
      → s.page_size ≡ 4096
      → decode_superblock crc32c (sealed crc32c (spelled s))
        ≡ ok (record (spelled s) {
          checksum = superblock_checksum crc32c (sealed crc32c (spelled s));
        })
  decode-spelled v crc_u32 version size = rw intact (
      decode-Carries crc32c (sealed crc32c (spelled s)) _ (
        Carries-sealed
          (record {
            generation_u64 = v.generation_u64;
            uuid_size = refl;
            tenant_u64 = v.tenant_u64;
            shard_u64 = v.shard_u64;
            epoch_u64 = v.epoch_u64;
            root_ref = v.root_ref;
            free_ref = v.free_ref;
            high_water_ref = v.high_water_ref;
            lsn_u64 = v.lsn_u64;
          })
          crc_u32 version size))

pub encode_superblock-ok :
    (crc32c : List ℕ → ℕ) (s : Superblock) {page : List ℕ}
    → encode_superblock crc32c s ≡ ok page
    → (s.format_version ≡ 1) × (s.page_size ≡ 4096) × (sealed crc32c s ≡ page)
unfolding encode_superblock sealed
encode_superblock-ok crc32c s e = ground arith

pub spelled_same : (s : Superblock) → IsSuperblock s → spelled s ≡ s
spelled_same s v = λ i. record s { database_uuid = spell-length 16 s.database_uuid v.uuid_size i }

-- If the checksum function returns 32-bit values and the fields are in range (no page id is the
-- null mark), a page that encode_superblock returns decodes to the superblock with its checksum
-- filled in.
pub decode_superblock-encode_superblock :
    (crc32c : List ℕ → ℕ) (s : Superblock) (page : List ℕ)
    → ((bytes : List ℕ) → crc32c bytes < U32)
    → IsSuperblock s
    → encode_superblock crc32c s ≡ ok page
    → decode_superblock crc32c page ≡ ok (record s { checksum = superblock_checksum crc32c page })
decode_superblock-encode_superblock crc32c s page crc_u32 v e =
    let (version, size, same) = encode_superblock-ok crc32c s e in
    subst
      (λ p. decode_superblock crc32c p ≡ ok (record s { checksum = superblock_checksum crc32c p }))
      same
      (subst
        (λ t.
          decode_superblock crc32c (sealed crc32c t)
          ≡ ok (record t { checksum = superblock_checksum crc32c (sealed crc32c t) }))
        (spelled_same s v) (decode-spelled crc32c s v crc_u32 version size))
