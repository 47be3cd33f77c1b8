-- ===== src/Storage/Btree/Tests.antt =====
-- The theorems of the page format at concrete pages.
use dodb.Core.Error.{Result}
use dodb.Core.Key
use dodb.Bytes.{copy_at, zeros, le_bytes, U32}
use dodb.Storage.Page.{encode_page, new_header}
use dodb.Storage.Btree.Entries.{ValueRef, LeafEntry, InternalEntry, PageData, ensure_sorted}
use dodb.Storage.Btree.Slots.{place_records, write_slots}
use dodb.Storage.Btree.LeafPage.{encode_leaf, encode_leaf_record, leaf_record_bytes, decode_leaf}
use dodb.Storage.Btree.LeafPage.Entry.{IsLeafEntry}
use dodb.Storage.Btree.LeafPage.RoundTrip.{decode_leaf-encode_leaf}
use dodb.Storage.Btree.InternalPage.{
  encode_internal, encode_internal_record, internal_record_bytes, decode_internal,
}
use dodb.Storage.Btree.InternalPage.Entry.{IsInternalEntry}
use dodb.Storage.Btree.InternalPage.RoundTrip.{decode_internal-encode_internal}
use dodb.Storage.Btree.Codec.{page_type, lsn, encode_body, encode}
use dodb.Storage.Btree.Codec.RoundTrip.{read_page, read_page-encode}
use dodb.Prelude.{ℕ, ◌<◌, ◌≡◌, refl, List, [], ◌∷◌, none, some, ok, err, All, arith}

abbrev bytes_of : Result (List ℕ) → List ℕ
bytes_of (ok bytes) = bytes
bytes_of (err e) = []

-- The encodings of the keys ("", "") and ("", "z").
abbrev first_key : List ℕ
first_key = 0 ∷ 0 ∷ 0 ∷ 0 ∷ []

abbrev second_key : List ℕ
second_key = 0 ∷ 0 ∷ b'z' ∷ 0 ∷ 0 ∷ []

abbrev third_key : List ℕ
third_key = b'k' ∷ 0 ∷ 0 ∷ 0 ∷ 0 ∷ []

-- A deleted document, one with an inline value, and one with an overflow chain.
abbrev leaf_entries : List LeafEntry
leaf_entries =
    record { key = first_key; revision = 3; value = none }
    ∷ record { key = second_key; revision = 9; value = some (ValueRef.inline (1 ∷ 2 ∷ [])) }
    ∷ record { key = third_key; revision = 9; value = some (ValueRef.overflow 12 5000) }
    ∷ []

leaf_in_range : All IsLeafEntry leaf_entries
leaf_in_range = (
  record { revision_u64 = omega arith; is_value = tt },
  (
    record { revision_u64 = omega arith; is_value = omega arith },
    (record { revision_u64 = omega arith; is_value = (omega arith, omega arith, omega arith) }, tt),
  ),
)

abbrev leaf_bytes : List ℕ
leaf_bytes = bytes_of (encode_leaf (some 8) leaf_entries)

leaf_encoded : encode_leaf (some 8) leaf_entries ≡ ok leaf_bytes
unfolding encode_leaf ensure_sorted place_records encode_leaf_record Key.decode Key.decode_component
    Key.cmp_bytes leaf_record_bytes zeros copy_at le_bytes
leaf_encoded = refl

decode_leaf-encode_leaf_example :
    decode_leaf 70 leaf_bytes ≡ ok (PageData.leaf 70 (some 8) leaf_entries)
decode_leaf-encode_leaf_example =
    decode_leaf-encode_leaf 70 (some 8) leaf_entries leaf_bytes (omega arith) leaf_in_range
      leaf_encoded

abbrev separators : List InternalEntry
separators =
    record { key = second_key; right_child = 4 } ∷ record { key = third_key; right_child = 5 } ∷ []

separators_in_range : All IsInternalEntry separators
separators_in_range = (omega arith, (omega arith, tt))

abbrev internal_bytes : List ℕ
internal_bytes = bytes_of (encode_internal 3 separators)

internal_encoded : encode_internal 3 separators ≡ ok internal_bytes
unfolding encode_internal ensure_sorted place_records encode_internal_record Key.decode
    Key.decode_component Key.cmp_bytes internal_record_bytes zeros copy_at le_bytes
internal_encoded = refl

decode_internal-encode_internal_example :
    decode_internal 70 internal_bytes ≡ ok (PageData.internal 70 3 separators)
decode_internal-encode_internal_example =
    decode_internal-encode_internal 70 3 separators internal_bytes (omega arith) separators_in_range
      internal_encoded

-- A checksum of one fixed value.
abbrev crc : List ℕ → ℕ
crc bytes = 7

crc-u32 : (bytes : List ℕ) → crc bytes < U32
crc-u32 bytes = omega arith

abbrev page : PageData
page = PageData.leaf 70 (some 8) leaf_entries

abbrev page_bytes : List ℕ
page_bytes = bytes_of (encode crc 6 page)

page_encoded : encode crc 6 page ≡ ok page_bytes
unfolding encode encode_body page_type lsn encode_page encode_leaf ensure_sorted place_records
    encode_leaf_record Key.decode Key.decode_component Key.cmp_bytes leaf_record_bytes zeros copy_at
    le_bytes new_header write_slots
page_encoded = refl

read_page-encode_example : read_page crc page_bytes 6 ≡ ok page
read_page-encode_example =
    read_page-encode crc page 6 page_bytes crc-u32 (omega arith)
      (omega arith, omega arith, leaf_in_range) page_encoded
