-- ===== src/Storage/Page/Canonical.antt =====
-- page.rs: the bytes that `decode_page_at` accepts.
use dodb.Bytes.{
  slice, copy_at, zeros, le_bytes, from_le, byte_at, IsByte, le_bytes-slice, le_bytes-one,
  slice-append-drop, eq_bytes_iff, drop-zeros,
}
use dodb.Storage.Page.{
  PageHeader, DecodedPage, PageType, type_code, decode_type, page_magic, page_checksum, page_fields,
  encode_page, decode_page_at,
}
use dodb.Storage.Page.Layout.{
  Carries, form, page_fields-form, copy_at-form, clear-form, encode_page-fits,
}
use dodb.Prelude.{
  ℕ, ◌+◌, ◌<◌, ◌≤◌, ◌≡◌, sym, ap, ◌∙◌, List, [], ◌∷◌, ◌++◌, Option, ok, length, drop, arith, All,
  length-drop, append-nil,
}

type_code_bound : (t : PageType) → type_code t < 256
unfolding type_code
type_code_bound PageType.internal = omega arith
type_code_bound _ = omega arith

type_code-decode_type : (n : ℕ) (t : PageType) → decode_type n ≡ ok t → n ≡ type_code t
unfolding decode_type type_code
type_code-decode_type n t h = ground arith

decode_page_at-Carries :
    (crc32c : List ℕ → ℕ) (bytes : List ℕ) (expected : Option ℕ) (page : DecodedPage)
    → decode_page_at crc32c bytes expected ≡ ok page
    → Carries crc32c bytes page.header
unfolding decode_page_at
decode_page_at-Carries crc32c bytes expected page h = ground (
  arith,
  eq_bytes_iff (slice 0 4 bytes) page_magic,
  type_code-decode_type (byte_at 6 bytes) page.header.page_type,
)

decode_page_at-body :
    (crc32c : List ℕ → ℕ) (bytes : List ℕ) (expected : Option ℕ) (page : DecodedPage)
    → decode_page_at crc32c bytes expected ≡ ok page
    → page.body ≡ drop 32 bytes
unfolding decode_page_at
decode_page_at-body crc32c bytes expected page h = ground arith

module _ (crc32c : List ℕ → ℕ) (bytes : List ℕ) (all_bytes : All IsByte bytes) (h : PageHeader)
    (c : Carries crc32c bytes h) where
  word :
      (offset n value : ℕ)
      → offset + n ≤ 4096
      → from_le (slice offset n bytes) ≡ value
      → slice offset n bytes ≡ le_bytes n value
  word offset n value fits read =
      sym (le_bytes-slice offset n bytes all_bytes (omega (arith, c.size))) ∙ ap (le_bytes n) read

  byte :
      (offset value : ℕ)
      → offset + 1 ≤ 4096
      → value < 256
      → byte_at offset bytes ≡ value
      → slice offset 1 bytes ≡ value ∷ []
  byte offset value fits small read = word offset 1 value fits read ∙ le_bytes-one value small

  bytes-form : bytes ≡ form h (drop 32 bytes)
  bytes-form =
      pieces
      ∙ rw (
        c.magic,
        word 4 2 h.format_version (omega arith) c.version,
        byte 6 (type_code h.page_type) (omega arith) (type_code_bound h.page_type) c.type_byte,
        byte 7 0 (omega arith) (omega arith) c.reserved,
        word 8 8 h.page_id (omega arith) c.id,
        word 16 8 h.page_lsn (omega arith) c.lsn,
        word 24 4 h.flags (omega arith) c.flags,
        word 28 4 h.checksum (omega arith) c.checksum,
      )
    where
      pieces :
          bytes
          ≡ slice 0 4 bytes
            ++ (slice 4 2 bytes
                ++ (slice 6 1 bytes
                    ++ (slice 7 1 bytes
                        ++ (slice 8 8 bytes
                            ++ (slice 16 8 bytes
                                ++ (slice 24 4 bytes ++ (slice 28 4 bytes ++ drop 32 bytes)))))))
      pieces = sym (
          rw (
            slice-append-drop 28 4 bytes,
            slice-append-drop 24 4 bytes,
            slice-append-drop 16 8 bytes,
            slice-append-drop 8 8 bytes,
            slice-append-drop 7 1 bytes,
            slice-append-drop 6 1 bytes,
            slice-append-drop 4 2 bytes,
            slice-append-drop 0 4 bytes,
          ))

  rest : List ℕ
  rest = drop 32 bytes

  length-rest : length rest ≡ 4064
  unfolding rest
  length-rest = omega (arith, length-drop 32 bytes, c.size)

  no_padding : drop 4064 (zeros 4064) ≡ []
  unfolding zeros
  no_padding = drop-zeros 4064 4064

  full : rest ++ drop (length rest) (zeros 4064) ≡ rest
  full = rw length-rest (ap (λ l. rest ++ l) no_padding ∙ append-nil rest)

  fields : page_fields crc32c h rest ≡ form (record h { checksum = 0 }) rest
  fields = page_fields-form crc32c h rest ∙ ap (form (record h { checksum = 0 })) full

  checksum-fields : page_checksum crc32c (page_fields crc32c h rest) ≡ h.checksum
  unfolding page_checksum rest
  checksum-fields =
      ap (λ p. crc32c (copy_at 28 4 (zeros 4) p)) fields
      ∙ ap crc32c (clear-form (record h { checksum = 0 }) rest ∙ sym (clear-form h rest))
      ∙ ap (λ p. crc32c (copy_at 28 4 (zeros 4) p)) (sym bytes-form)
      ∙ c.intact

  encode-rest : encode_page crc32c h rest ≡ ok bytes
  encode-rest =
      encode_page-fits crc32c h rest c.current (omega (arith, length-rest))
      ∙ ap ok (
          ap (λ k. copy_at 28 4 (le_bytes 4 k) (page_fields crc32c h rest)) checksum-fields
          ∙ ap (copy_at 28 4 (le_bytes 4 h.checksum)) fields
          ∙ copy_at-form h.checksum (record h { checksum = 0 }) rest
          ∙ unfold rest in sym bytes-form)

-- A buffer of bytes that decodes as a page, whatever page id is expected, is what encode_page
-- returns for the decoded header and body.
pub encode_page-decode_page_at :
    (crc32c : List ℕ → ℕ) (bytes : List ℕ) (expected : Option ℕ) (page : DecodedPage)
    → All IsByte bytes
    → decode_page_at crc32c bytes expected ≡ ok page
    → encode_page crc32c page.header page.body ≡ ok bytes
unfolding rest
encode_page-decode_page_at crc32c bytes expected page all_bytes e =
    rw (decode_page_at-body crc32c bytes expected page e) (
      encode-rest crc32c bytes all_bytes page.header
        (decode_page_at-Carries crc32c bytes expected page e))
