-- ===== src/Storage/Page/Layout.antt =====
-- page.rs: where the fields of an encoded page stand, and what the decoder asks of them.
use dodb.Bytes.{slice, copy_at, zeros, le_bytes, u16_at, u32_at, u64_at, byte_at, U32, U64}
use dodb.Storage.Page.{
  PageHeader, PageType, type_code, decode_type, page_magic, page_checksum, page_fields, encode_page,
  decode_page_at,
}
use dodb.Prelude.{ℕ, ◌+◌, ◌<◌, ◌≤◌, ◌≡◌, refl, List, [], ◌∷◌, ◌++◌, some, ok, length, drop, arith}

-- The fields hold values of their machine types.
pub record IsHeader (h : PageHeader) : Type 0 where
  pub id_u64 : h.page_id < U64
  pub lsn_u64 : h.page_lsn < U64
  pub flags_u32 : h.flags < U32

pub decode_type-type_code : (t : PageType) → decode_type (type_code t) ≡ ok t
unfolding decode_type type_code
decode_type-type_code PageType.internal = refl
decode_type-type_code _ = refl

-- The bytes carry these fields, and their checksum is right.
pub record Carries (crc32c : List ℕ → ℕ) (bytes : List ℕ) (h : PageHeader) : Type 0 where
  pub size : length bytes ≡ 4096
  pub magic : slice 0 4 bytes ≡ page_magic
  pub version : u16_at 4 bytes ≡ h.format_version
  pub current : h.format_version ≡ 1
  pub reserved : byte_at 7 bytes ≡ 0
  pub type_byte : byte_at 6 bytes ≡ type_code h.page_type
  pub id : u64_at 8 bytes ≡ h.page_id
  pub lsn : u64_at 16 bytes ≡ h.page_lsn
  pub flags : u32_at 24 bytes ≡ h.flags
  pub checksum : u32_at 28 bytes ≡ h.checksum
  pub intact : page_checksum crc32c bytes ≡ h.checksum

pub decode-Carries :
    (crc32c : List ℕ → ℕ) (bytes : List ℕ) (h : PageHeader)
    → Carries crc32c bytes h
    → decode_page_at crc32c bytes (some h.page_id)
      ≡ ok (record { header = h; body = drop 32 bytes })
unfolding decode_page_at
decode-Carries crc32c bytes h c =
    rw
      (
        c.size,
        c.magic,
        c.version,
        c.reserved,
        c.type_byte,
        decode_type-type_code h.page_type,
        c.id,
        c.lsn,
        c.flags,
        c.checksum,
        c.intact,
      )
      (ground (arith, c.current))

-- The fields of an encoded page, by evaluation of the writes.
module _ (crc32c : List ℕ → ℕ) (h : PageHeader) (body : List ℕ) where
  abbrev pub sealed : List ℕ
  sealed =
      copy_at 28 4 (le_bytes 4 (page_checksum crc32c (page_fields crc32c h body)))
        (page_fields crc32c h body)

  pub record Layout : Type 0 where
    pub magic : slice 0 4 sealed ≡ page_magic
    pub version : slice 4 2 sealed ≡ le_bytes 2 h.format_version
    pub type_byte : slice 6 1 sealed ≡ type_code h.page_type ∷ []
    pub reserved : slice 7 1 sealed ≡ 0 ∷ []
    pub id : slice 8 8 sealed ≡ le_bytes 8 h.page_id
    pub lsn : slice 16 8 sealed ≡ le_bytes 8 h.page_lsn
    pub flags : slice 24 4 sealed ≡ le_bytes 4 h.flags
    pub checksum : slice 28 4 sealed ≡ le_bytes 4 (page_checksum crc32c (page_fields crc32c h body))
    pub cleared : copy_at 28 4 (zeros 4) sealed ≡ copy_at 28 4 (zeros 4) (page_fields crc32c h body)
    pub content : drop 32 sealed ≡ body ++ drop (length body) (zeros 4064)
    pub bytes_count : length sealed ≡ 32 + length (body ++ drop (length body) (zeros 4064))

  pub layout : Layout
  unfolding page_fields slice copy_at zeros le_bytes
  layout = record {
    magic = refl;
    version = refl;
    type_byte = refl;
    reserved = refl;
    id = refl;
    lsn = refl;
    flags = refl;
    checksum = refl;
    cleared = refl;
    content = refl;
    bytes_count = omega arith;
  }

-- A page as its fields one after the other.
abbrev pub form : PageHeader → List ℕ → List ℕ
form h rest =
    page_magic
    ++ (le_bytes 2 h.format_version
        ++ ((type_code h.page_type ∷ [])
            ++ ((0 ∷ [])
                ++ (le_bytes 8 h.page_id
                    ++ (le_bytes 8 h.page_lsn
                        ++ (le_bytes 4 h.flags ++ (le_bytes 4 h.checksum ++ rest)))))))

pub page_fields-form :
    (crc32c : List ℕ → ℕ) (h : PageHeader) (body : List ℕ)
    → page_fields crc32c h body
      ≡ form (record h { checksum = 0 }) (body ++ drop (length body) (zeros 4064))
unfolding page_fields copy_at zeros le_bytes
page_fields-form crc32c h body = refl

pub copy_at-form :
    (c : ℕ) (h : PageHeader) (rest : List ℕ)
    → copy_at 28 4 (le_bytes 4 c) (form h rest) ≡ form (record h { checksum = c }) rest
unfolding copy_at le_bytes
copy_at-form c h rest = refl

pub clear-form :
    (h : PageHeader) (rest : List ℕ)
    → copy_at 28 4 (zeros 4) (form h rest) ≡ form (record h { checksum = 0 }) rest
unfolding copy_at zeros le_bytes
clear-form h rest = refl

pub encode_page-fits :
    (crc32c : List ℕ → ℕ) (h : PageHeader) (body : List ℕ)
    → h.format_version ≡ 1
    → length body ≤ 4064
    → encode_page crc32c h body ≡ ok (sealed crc32c h body)
unfolding encode_page
encode_page-fits crc32c h body version fits = ground arith
