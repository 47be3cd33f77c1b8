-- ===== src/Storage/Page.antt =====
-- crates/dodb-storage/src/page.rs: fixed-size checksummed pages.
pub mod Layout
pub mod RoundTrip
pub mod Canonical
use dodb.Core.Error.{Error, Result, invalid_input, corruption, unsupported_format}
use dodb.Bytes.{slice, copy_at, zeros, le_bytes, u16_at, u32_at, u64_at, byte_at, eq_bytes}
use dodb.Prelude.{
  ℕ, ◌-◌, ◌+◌, Bool, true, false, not, List, [], ◌∷◌, Option, none, some, ok, err, ◌>>=◌, ◌>>◌,
  fail_if, ◌==◌, ltb, length, drop, if◌then◌else◌,
}

abbrev pub page_size : ℕ
page_size = 4096

abbrev pub page_header_size : ℕ
page_header_size = 32

abbrev pub page_format_version : ℕ
page_format_version = 1

-- `*b"DBPG"`
abbrev pub page_magic : List ℕ
page_magic = b'D' ∷ b'B' ∷ b'P' ∷ b'G' ∷ []

abbrev checksum_offset : ℕ
checksum_offset = 28

pub data PageType : Type 0 where
  internal leaf overflow free test : PageType

-- `page_type as u8`
unfoldable pub type_code : PageType → ℕ
type_code PageType.internal = 1
type_code PageType.leaf = 2
type_code PageType.overflow = 3
type_code PageType.free = 4
type_code PageType.test = 255

unfoldable pub decode_type : ℕ → Result PageType
decode_type value =
    if value == 1
    then ok PageType.internal
    else if value == 2
    then ok PageType.leaf
    else if value == 3
    then ok PageType.overflow
    else if value == 4
    then ok PageType.free
    else if value == 255
    then ok PageType.test
    else err unsupported_format

pub record PageHeader : Type 0 where
  pub format_version : ℕ
  pub page_type : PageType
  pub page_id : ℕ
  pub page_lsn : ℕ
  pub flags : ℕ
  pub checksum : ℕ

-- `PageHeader::new`
unfoldable pub new_header : PageType → ℕ → ℕ → PageHeader
new_header page_type page_id page_lsn = record {
  format_version = page_format_version;
  page_type = page_type;
  page_id = page_id;
  page_lsn = page_lsn;
  flags = 0;
  checksum = 0;
}

pub record DecodedPage : Type 0 where
  pub header : PageHeader
  pub body : List ℕ

-- `crc32c` is the function of the crate of that name.
module _ (crc32c : List ℕ → ℕ) where
  unfoldable pub page_checksum : List ℕ → ℕ
  page_checksum page = crc32c (copy_at checksum_offset 4 (zeros 4) page)

  -- The page before its checksum is filled in.
  unfoldable pub page_fields : PageHeader → List ℕ → List ℕ
  page_fields header body =
      let p0 = copy_at 0 4 page_magic (zeros page_size) in
      let p1 = copy_at 4 2 (le_bytes 2 header.format_version) p0 in
      let p2 = copy_at 6 1 (type_code header.page_type ∷ []) p1 in
      let p3 = copy_at 8 8 (le_bytes 8 header.page_id) p2 in
      let p4 = copy_at 16 8 (le_bytes 8 header.page_lsn) p3 in
      let p5 = copy_at 24 4 (le_bytes 4 header.flags) p4 in
      copy_at page_header_size (length body) body p5

  unfoldable pub encode_page : PageHeader → List ℕ → Result (List ℕ)
  encode_page header body = do
    fail_if (not (header.format_version == page_format_version)) unsupported_format
    fail_if (ltb (page_size - page_header_size) (length body)) invalid_input
    let page = page_fields header body
    ok (copy_at checksum_offset 4 (le_bytes 4 (page_checksum page)) page)

  -- `expected_page_id` and the page's own id disagree.
  abbrev page_id_mismatch : Option ℕ → ℕ → Bool
  page_id_mismatch none page_id = false
  page_id_mismatch (some expected) page_id = not (page_id == expected)

  unfoldable pub decode_page_at : List ℕ → Option ℕ → Result DecodedPage
  decode_page_at bytes expected_page_id = do
    fail_if (not (length bytes == page_size)) corruption
    fail_if (not (eq_bytes (slice 0 4 bytes) page_magic)) corruption
    let format_version = u16_at 4 bytes
    fail_if (not (format_version == page_format_version)) unsupported_format
    fail_if (not (byte_at 7 bytes == 0)) corruption
    page_type ← decode_type (byte_at 6 bytes)
    let page_id = u64_at 8 bytes
    fail_if (page_id_mismatch expected_page_id page_id) corruption
    let page_lsn = u64_at 16 bytes
    let flags = u32_at 24 bytes
    let stored_checksum = u32_at checksum_offset bytes
    fail_if (not (stored_checksum == page_checksum bytes)) corruption
    ok (record {
      header = record {
        format_version = format_version;
        page_type = page_type;
        page_id = page_id;
        page_lsn = page_lsn;
        flags = flags;
        checksum = stored_checksum;
      };
      body = drop page_header_size bytes;
    })

  unfoldable pub decode_page : List ℕ → Result DecodedPage
  decode_page bytes = decode_page_at bytes none
