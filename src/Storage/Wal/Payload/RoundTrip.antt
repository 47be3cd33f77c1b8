-- ===== src/Storage/Wal/Payload/RoundTrip.antt =====
-- wal.rs: the payloads of records, written and decoded.
use dodb.Bytes.{slice, copy_at, zeros, le_bytes, from_le, from_le-le_bytes, eq_bytes_iff, U32, U64}
use dodb.Storage.Wal.Payload.{
  WalIdentity, WalPageImage, identity_payload, verify_identity, validate_page_image,
  encode_page_image, decode_page_image, commit_payload, decode_commit_payload,
}
use dodb.Prelude.{
  ℕ, ◌^◌, ◌<◌, ◌≡◌, refl, ap, subst, ◌∙◌, List, ◌++◌, ok, length, spell, spell-length, >>=-eq-ok,
  ok-injective, arith,
}

-- The fields are in the range of their types.
pub record IsIdentity (identity : WalIdentity) : Type 0 where
  pub uuid_size : length identity.database_uuid ≡ 16
  pub tenant_u64 : identity.tenant_id < U64
  pub shard_u64 : identity.shard_id < U64
  pub epoch_u64 : identity.shard_epoch < U64

module _ (identity : WalIdentity) (start : ℕ) where
  -- The identity with its UUID written out byte by byte.
  abbrev spelled : WalIdentity
  spelled = record identity { database_uuid = spell 16 identity.database_uuid }

  abbrev init_payload : List ℕ
  init_payload = identity_payload spelled start

  record Layout : Type 0 where
    size : length init_payload ≡ 52
    uuid : slice 0 16 init_payload ≡ spell 16 identity.database_uuid
    tenant : slice 16 8 init_payload ≡ le_bytes 8 identity.tenant_id
    shard : slice 24 8 init_payload ≡ le_bytes 8 identity.shard_id
    epoch : slice 32 8 init_payload ≡ le_bytes 8 identity.shard_epoch
    page_bytes : slice 40 4 init_payload ≡ le_bytes 4 4096
    start_word : slice 44 8 init_payload ≡ le_bytes 8 start

  layout : Layout
  unfolding identity_payload slice copy_at zeros le_bytes
  layout = record {
    size = refl;
    uuid = refl;
    tenant = refl;
    shard = refl;
    epoch = refl;
    page_bytes = refl;
    start_word = refl;
  }

  module _ (valid : IsIdentity identity) (start_u64 : start < U64) where
    word :
        (n value : ℕ) {bytes : List ℕ}
        → bytes ≡ le_bytes n value
        → value < 256 ^ n
        → from_le bytes ≡ value
    word n value e small = ap from_le e ∙ from_le-le_bytes n value small

    verify-spelled : verify_identity 2 init_payload spelled ≡ ok start
    unfolding verify_identity
    verify-spelled =
        rw
          (
            layout.size,
            layout.uuid,
            word 8 identity.tenant_id layout.tenant (omega (arith, valid.tenant_u64)),
            word 8 identity.shard_id layout.shard (omega (arith, valid.shard_u64)),
            word 8 identity.shard_epoch layout.epoch (omega (arith, valid.epoch_u64)),
            word 4 4096 layout.page_bytes (omega arith),
            word 8 start layout.start_word (omega (arith, start_u64)),
            (eq_bytes_iff (spell 16 identity.database_uuid) (spell 16 identity.database_uuid)).1
                refl,
          )
          (ground arith)

-- The initialization record of a database, its fields in range, is accepted for the same identity,
-- and gives back the LSN at which the history starts.
pub verify_identity-identity_payload :
    (identity : WalIdentity) (start : ℕ)
    → IsIdentity identity
    → start < U64
    → verify_identity 2 (identity_payload identity start) identity ≡ ok start
verify_identity-identity_payload identity start valid start_u64 =
    let unspelled : spelled identity start ≡ identity = λ i. record identity {
      database_uuid = spell-length 16 identity.database_uuid valid.uuid_size i;
    } in
    subst (λ t. verify_identity 2 (identity_payload t start) t ≡ ok start) unspelled
      (verify-spelled identity start valid start_u64)

pub length-identity_payload :
    (identity : WalIdentity) (start : ℕ)
    → IsIdentity identity
    → length (identity_payload identity start) ≡ 52
length-identity_payload identity start valid =
    let unspelled : spelled identity start ≡ identity = λ i. record identity {
      database_uuid = spell-length 16 identity.database_uuid valid.uuid_size i;
    } in
    subst (λ t. length (identity_payload t start) ≡ 52) unspelled ((layout identity start).size)

pub decode_commit_payload-commit_payload :
    (first page_count digest : ℕ)
    → first < U64
    → page_count < U32
    → digest < U32
    → decode_commit_payload (commit_payload first page_count digest)
      ≡ ok (first, page_count, digest)
unfolding decode_commit_payload commit_payload slice copy_at zeros le_bytes
decode_commit_payload-commit_payload first page_count digest first_u64 count_u32 digest_u32 =
    let a : from_le (le_bytes 8 first) ≡ first = from_le-le_bytes 8 first (omega arith) in
    let b : from_le (le_bytes 4 page_count) ≡ page_count =
      from_le-le_bytes 4 page_count (omega arith) in
    let c : from_le (le_bytes 4 digest) ≡ digest = from_le-le_bytes 4 digest (omega arith) in
    λ i. ok (a i, b i, c i)

pub record IsPageImage (page : WalPageImage) : Type 0 where
  pub id_u64 : page.page_id < U64
  pub size : length page.image ≡ 4096

pub image_decoded :
    (page : WalPageImage)
    → IsPageImage page
    → decode_page_image (le_bytes 8 page.page_id ++ page.image) ≡ ok page
unfolding decode_page_image slice le_bytes
image_decoded page valid =
    let a : from_le (le_bytes 8 page.page_id) ≡ page.page_id =
      from_le-le_bytes 8 page.page_id (omega (arith, valid.id_u64)) in
    rw (valid.size) (λ i. ok (record { page_id = a i; image = page.image }))

pub encode_page_image-ok :
    (crc32c : List ℕ → ℕ) (page : WalPageImage) (payload : List ℕ)
    → encode_page_image crc32c page ≡ ok payload
    → (validate_page_image crc32c page ≡ ok tt)
      × ((le_bytes 8 page.page_id ++ page.image) ≡ payload)
unfolding encode_page_image
encode_page_image-ok crc32c page payload h =
    let (done, valid, last) = >>=-eq-ok (validate_page_image crc32c page) _ h in
    (valid, ok-injective last)

-- A page image of 4096 bytes with a 64-bit page id that encode_page_image accepts decodes from its
-- payload, and is valid.
pub decode_page_image-encode_page_image :
    (crc32c : List ℕ → ℕ) (page : WalPageImage) (payload : List ℕ)
    → IsPageImage page
    → encode_page_image crc32c page ≡ ok payload
    → (decode_page_image payload ≡ ok page) × (validate_page_image crc32c page ≡ ok tt)
decode_page_image-encode_page_image crc32c page payload is_image h =
    let (valid, same) = encode_page_image-ok crc32c page payload h in
    (subst (λ p. decode_page_image p ≡ ok page) same (image_decoded page is_image), valid)
