-- ===== src/Storage/Page/RoundTrip.antt =====
-- page.rs: `encode_page` and `decode_page_at` together.
use dodb.Bytes.{zeros, from_le, U32, from_le-le_bytes, from_le-one, drop-zeros, length-zeros}
use dodb.Storage.Page.{
  PageHeader, type_code, page_checksum, page_fields, encode_page, decode_page_at,
}
use dodb.Prelude.{
  ℕ, ◌-◌, ◌<◌, ◌≤◌, ◌≡◌, ap, subst, ◌∙◌, List, ◌++◌, some, ok, length, drop, length-append, arith,
}
use dodb.Storage.Page.Layout.{IsHeader, Carries, decode-Carries, sealed, layout}

module _ (crc32c : List ℕ → ℕ) (h : PageHeader) (body : List ℕ) (fits : length body ≤ 4064) where
  padding : drop (length body) (zeros 4064) ≡ zeros (4064 - length body)
  padding = drop-zeros (length body) 4064

  length-sealed : length (sealed crc32c h body) ≡ 4096
  length-sealed =
      (layout crc32c h body).bytes_count
      ∙ omega (
        arith,
        length-append body (drop (length body) (zeros 4064)),
        ap length padding ∙ length-zeros (4064 - length body),
      )

  drop-sealed : drop 32 (sealed crc32c h body) ≡ body ++ zeros (4064 - length body)
  drop-sealed = (layout crc32c h body).content ∙ ap (λ l. body ++ l) padding

  checksum-sealed :
      page_checksum crc32c (sealed crc32c h body) ≡ page_checksum crc32c (page_fields crc32c h body)
  unfolding page_checksum
  checksum-sealed = ap crc32c (layout crc32c h body).cleared

  Carries-sealed :
      IsHeader h
      → h.format_version ≡ 1
      → ((bytes : List ℕ) → crc32c bytes < U32)
      → Carries crc32c
          (sealed crc32c h body)
          (record h { checksum = page_checksum crc32c (page_fields crc32c h body) })
  Carries-sealed range version crc_u32 = record {
    size = length-sealed;
    magic = (layout crc32c h body).magic;
    version =
        ap from_le (layout crc32c h body).version
        ∙ from_le-le_bytes 2 h.format_version (omega arith);
    current = version;
    reserved = ap from_le (layout crc32c h body).reserved ∙ from_le-one 0;
    type_byte = ap from_le (layout crc32c h body).type_byte ∙ from_le-one (type_code h.page_type);
    id = ap from_le (layout crc32c h body).id ∙ from_le-le_bytes 8 h.page_id range.id_u64;
    lsn = ap from_le (layout crc32c h body).lsn ∙ from_le-le_bytes 8 h.page_lsn range.lsn_u64;
    flags = ap from_le (layout crc32c h body).flags ∙ from_le-le_bytes 4 h.flags range.flags_u32;
    checksum =
        ap from_le (layout crc32c h body).checksum
        ∙ from_le-le_bytes 4 _ (unfold page_checksum in crc_u32 _);
    intact = checksum-sealed;
  }

pub encode_page-ok :
    (crc32c : List ℕ → ℕ) (h : PageHeader) (body : List ℕ) {page : List ℕ}
    → encode_page crc32c h body ≡ ok page
    → (h.format_version ≡ 1) × (length body ≤ 4064) × (sealed crc32c h body ≡ page)
unfolding encode_page
encode_page-ok crc32c h body e = ground arith

-- If the checksum function returns 32-bit values and the header fields are in the range of their
-- types, a page that encode_page returns decodes, at its own page id, to the header with the
-- checksum filled in and to the body padded with zeros.
pub decode_page_at-encode_page :
    (crc32c : List ℕ → ℕ) (h : PageHeader) (body page : List ℕ)
    → ((bytes : List ℕ) → crc32c bytes < U32)
    → IsHeader h
    → encode_page crc32c h body ≡ ok page
    → decode_page_at crc32c page (some h.page_id)
      ≡ ok (record {
        header = record h { checksum = page_checksum crc32c page };
        body = body ++ zeros (4064 - length body);
      })
decode_page_at-encode_page crc32c h body page crc_u32 range e =
    let (version, fits, same) = encode_page-ok crc32c h body e in
    subst
      (λ p.
        decode_page_at crc32c p (some h.page_id)
        ≡ ok (record {
          header = record h { checksum = page_checksum crc32c p };
          body = body ++ zeros (4064 - length body);
        }))
      same
      (rw (checksum-sealed crc32c h body fits) (
        decode-Carries crc32c (sealed crc32c h body) _
          (Carries-sealed crc32c h body fits range version crc_u32)
        ∙ ap
            (λ b. ok (record {
              header = record h { checksum = page_checksum crc32c (page_fields crc32c h body) };
              body = b;
            }))
            (drop-sealed crc32c h body fits)))
