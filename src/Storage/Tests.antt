-- ===== src/Storage/Tests.antt =====
-- The theorems of the storage formats at concrete inputs, with a checksum of one fixed value.
use dodb.Bytes.{zeros, copy_at, le_bytes, IsByte, U32}
use dodb.Storage.Page.{
  PageHeader, PageType, DecodedPage, page_checksum, page_fields, type_code, encode_page,
  decode_page_at,
}
use dodb.Storage.Page.Layout.{IsHeader, sealed}
use dodb.Storage.Page.RoundTrip.{decode_page_at-encode_page}
use dodb.Storage.Page.Canonical.{encode_page-decode_page_at}
use dodb.Storage.Btree.Entries.{encode_page_id}
use dodb.Storage.Btree.ChainPages.{overflow_body, encode_overflow, encode_free}
use dodb.Prelude.{
  ℕ, ◌-◌, ◌<◌, ◌≡◌, refl, List, [], ◌∷◌, ◌++◌, none, some, ok, length, All, Bool, true, ltb, arith,
  ◌&&◌,
}

abbrev crc : List ℕ → ℕ
crc bytes = 7

crc-u32 : (bytes : List ℕ) → crc bytes < U32
crc-u32 bytes = omega arith

abbrev header : PageHeader
header = record {
  format_version = 1;
  page_type = PageType.leaf;
  page_id = 5;
  page_lsn = 900;
  flags = 0;
  checksum = 0;
}

header-IsHeader : IsHeader header
header-IsHeader = record { id_u64 = omega arith; lsn_u64 = omega arith; flags_u32 = omega arith }

abbrev body : List ℕ
body = 1 ∷ 2 ∷ 3 ∷ []

abbrev page : List ℕ
page = sealed crc header body

page_encoded : encode_page crc header body ≡ ok page
unfolding encode_page
page_encoded = refl

decode_page_at-encode_page_example :
    decode_page_at crc page (some 5)
    ≡ ok (record {
      header = record header { checksum = page_checksum crc page };
      body = body ++ zeros (4064 - length body);
    })
decode_page_at-encode_page_example =
    decode_page_at-encode_page crc header body page crc-u32 header-IsHeader page_encoded

abbrev are_bytes : List ℕ → Bool
are_bytes [] = true
are_bytes (x ∷ xs) = ltb x 256 && are_bytes xs

All-are_bytes : (xs : List ℕ) → are_bytes xs ≡ true → All IsByte xs
All-are_bytes [] h = tt
All-are_bytes (x ∷ xs) h =
    (let small : x < 256 = ground arith in small, All-are_bytes xs (ground arith))

page_bytes : All IsByte page
unfolding copy_at zeros le_bytes page_fields page_checksum type_code
page_bytes = All-are_bytes page refl

decoded : DecodedPage
decoded = record {
  header = record header { checksum = page_checksum crc page };
  body = body ++ zeros (4064 - length body);
}

encode_page-decode_page_at_example :
    encode_page crc
      (record header { checksum = page_checksum crc page })
      (body ++ zeros (4064 - length body))
    ≡ ok page
encode_page-decode_page_at_example =
    encode_page-decode_page_at crc page (some 5)
      (record {
        header = record header { checksum = page_checksum crc page };
        body = body ++ zeros (4064 - length body);
      })
      page_bytes
      (decode_page_at-encode_page crc header body page crc-u32 header-IsHeader page_encoded)

-- The pages of a chain.
abbrev free_page : List ℕ
free_page =
    copy_at 8 8 (le_bytes 8 3)
      (copy_at 4 2 (le_bytes 2 1) (copy_at 0 4 (b'F' ∷ b'R' ∷ b'E' ∷ b'E' ∷ []) (zeros 4064)))

free_encoded : encode_free (some 3) ≡ ok free_page
unfolding encode_free encode_page_id
free_encoded = refl

overflow_encoded : encode_overflow none 3 body ≡ ok (overflow_body none 3 body)
unfolding encode_overflow
overflow_encoded = refl
