-- ===== src/Storage/Wal/Payload.antt =====
-- crates/dodb-storage/src/wal.rs: the payloads of initialization, page-image and commit records.
pub mod RoundTrip
use dodb.Core.Error.{Result, corruption, unsupported_format}
use dodb.Bytes.{slice, copy_at, zeros, le_bytes, eq_bytes, u32_at, u64_at}
use dodb.Storage.Page.{page_size, decode_page_at}
use dodb.Storage.Superblock.{decode_superblock}
use dodb.Storage.Wal.Frame.{legacy_wal_format_version}
use dodb.Prelude.{
  ℕ, ◌+◌, Bool, List, ◌++◌, some, not, ◌||◌, ◌&&◌, ok, ◌>>=◌, ◌>>◌, fail_if, ◌==◌, length, drop,
  if◌then◌else◌,
}

abbrev pub legacy_init_payload_size : ℕ
legacy_init_payload_size = 44

abbrev pub init_payload_size : ℕ
init_payload_size = 52

abbrev pub page_image_payload_size : ℕ
page_image_payload_size = 8 + page_size

abbrev pub commit_payload_size : ℕ
commit_payload_size = 16

pub record WalIdentity : Type 0 where
  pub database_uuid : List ℕ
  pub tenant_id : ℕ
  pub shard_id : ℕ
  pub shard_epoch : ℕ

pub record WalPageImage : Type 0 where
  pub page_id : ℕ
  pub image : List ℕ

-- The derived equality of identities.
abbrev pub same_identity : WalIdentity → WalIdentity → Bool
same_identity a b =
    eq_bytes a.database_uuid b.database_uuid
    && (a.tenant_id == b.tenant_id && (a.shard_id == b.shard_id && a.shard_epoch == b.shard_epoch))

unfoldable pub identity_payload : WalIdentity → ℕ → List ℕ
identity_payload identity start_after_lsn =
    let p0 = copy_at 0 16 identity.database_uuid (zeros init_payload_size) in
    let p1 = copy_at 16 8 (le_bytes 8 identity.tenant_id) p0 in
    let p2 = copy_at 24 8 (le_bytes 8 identity.shard_id) p1 in
    let p3 = copy_at 32 8 (le_bytes 8 identity.shard_epoch) p2 in
    let p4 = copy_at 40 4 (le_bytes 4 page_size) p3 in copy_at 44 8 (le_bytes 8 start_after_lsn) p4

unfoldable pub verify_identity : ℕ → List ℕ → WalIdentity → Result ℕ
verify_identity version payload expected = do
  let expected_length =
      if version == legacy_wal_format_version then legacy_init_payload_size else init_payload_size
  fail_if (not (length payload == expected_length)) corruption
  fail_if (not (u32_at 40 payload == page_size)) unsupported_format
  fail_if
      (not (
        same_identity
          (record {
            database_uuid = slice 0 16 payload;
            tenant_id = u64_at 16 payload;
            shard_id = u64_at 24 payload;
            shard_epoch = u64_at 32 payload;
          })
          expected))
      corruption
  ok (if version == legacy_wal_format_version then 0 else u64_at 44 payload)

-- `SUPERBLOCK_A_PAGE` and `SUPERBLOCK_B_PAGE`
abbrev pub is_superblock_page : ℕ → Bool
is_superblock_page page_id = page_id == 0 || page_id == 1

module _ (crc32c : List ℕ → ℕ) where
  unfoldable pub validate_page_image : WalPageImage → Result (Unit {0})
  validate_page_image page =
      if is_superblock_page page.page_id
      then (do superblock ← decode_superblock crc32c page.image; ok tt)
      else (do decoded ← decode_page_at crc32c page.image (some page.page_id); ok tt)

  unfoldable pub encode_page_image : WalPageImage → Result (List ℕ)
  encode_page_image page = do validate_page_image page; ok (le_bytes 8 page.page_id ++ page.image)

unfoldable pub validate_page_image_lsn : WalPageImage → ℕ → Result (Unit {0})
validate_page_image_lsn page commit_lsn =
    if is_superblock_page page.page_id
    then ok tt
    else fail_if (not (u64_at 16 page.image == commit_lsn)) corruption

unfoldable pub decode_page_image : List ℕ → Result WalPageImage
decode_page_image payload = do
  fail_if (not (length payload == page_image_payload_size)) corruption
  ok (record { page_id = u64_at 0 payload; image = drop 8 payload })

-- The commit payload that `append_group_commit` writes.
unfoldable pub commit_payload : ℕ → ℕ → ℕ → List ℕ
commit_payload first_record_lsn page_count digest = copy_at 12 4 (le_bytes 4 digest) (
    copy_at 8 4 (le_bytes 4 page_count)
      (copy_at 0 8 (le_bytes 8 first_record_lsn) (zeros commit_payload_size)))

-- `(first_lsn, page_count, digest)`
unfoldable pub decode_commit_payload : List ℕ → Result (ℕ × ℕ × ℕ)
decode_commit_payload payload = do
  fail_if (not (length payload == commit_payload_size)) corruption
  ok (u64_at 0 payload, u32_at 8 payload, u32_at 12 payload)
