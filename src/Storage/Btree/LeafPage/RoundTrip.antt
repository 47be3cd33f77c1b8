-- ===== src/Storage/Btree/LeafPage/RoundTrip.antt =====
-- format.rs: `encode_leaf` and `decode_leaf` together.
use dodb.Core.Error.{invalid_input}
use dodb.Bytes.{U16}
use dodb.Storage.Btree.Entries.{LeafEntry, PageData, encode_page_id, check_body_size, ensure_sorted}
use dodb.Storage.Btree.Entries.Laws.{
  IsPageRef, encode_page_id_bound, decode_page_id-encode_page_id, read_word-le_bytes,
  check_version_current,
}
use dodb.Storage.Btree.Slots.{place_records}
use dodb.Storage.Btree.Slots.Place.{place_records-Placed}
use dodb.Storage.Btree.Slots.Page.{LaidOut, LaidOut-placed, page_start, length-page_start}
use dodb.Storage.Btree.Slots.Decode.{length-page, page-Header, region, disjoint, read}
use dodb.Storage.Btree.LeafPage.{encode_leaf_record, encode_leaf, decode_leaf_record, decode_leaf}
use dodb.Storage.Btree.LeafPage.Entry.{IsLeafEntry}
use dodb.Storage.Btree.LeafPage.Decode.{
  decode_leaf_record-encode_leaf_record, encode_leaf_record-IsRecord,
}
use dodb.Prelude.{
  ℕ, ◌+◌, ◌-◌, ◌*◌, ◌≤◌, ◌≡◌, subst, List, [], Option, ok, ok-injective, >>=-eq-ok, fail_if, ltb,
  ◌||◌, length, map, All, arith,
}
use mathlib.Core.List.{reverse}

abbrev IsLeaf : Option ℕ → List LeafEntry → List ℕ → Type 0
IsLeaf next entries page =
    LaidOut b'L' b'E' b'A' b'F' (encode_page_id next) encode_leaf_record entries page

module _ (next_leaf : Option ℕ) (entries : List LeafEntry) (page : List ℕ) where
  abbrev keys : List (List ℕ)
  keys = map (λ (e : LeafEntry). e.key) entries

  encode_leaf-ok :
      encode_leaf next_leaf entries ≡ ok page
      → (ensure_sorted keys ≡ ok tt) × IsLeaf next_leaf entries page
  unfolding encode_leaf
  encode_leaf-ok h =
      let slot_bytes = 32 + length entries * 8 in
      let (done, size, after) =
        >>=-eq-ok (fail_if (ltb (U16 - 1) (length entries) || ltb 4064 slot_bytes) invalid_input) _
          h in
      let (done', sorted, rest) = >>=-eq-ok (ensure_sorted keys) _ after in
      let (out, placed, last) =
        >>=-eq-ok
          (place_records encode_leaf_record slot_bytes (reverse entries) 4064
            (page_start b'L' b'E' b'A' b'F' (length entries) slot_bytes (encode_page_id next_leaf))
            [])
          _ rest in
      (
        sorted,
        subst (IsLeaf next_leaf entries) (ok-injective last) (
            LaidOut-placed b'L' b'E' b'A' b'F' (encode_page_id next_leaf) encode_leaf_record entries
              out
              (place_records-Placed encode_leaf_record slot_bytes (reverse entries) 4064 _ []
                (ground (arith, size))
                (omega (
                  arith,
                  length-page_start b'L' b'E' b'A' b'F' (length entries) slot_bytes
                      (encode_page_id next_leaf),
                ))
                placed)),
      )

module _ (lsn : ℕ) (next_leaf : Option ℕ) (entries : List LeafEntry) (page : List ℕ)
    (ref : IsPageRef next_leaf) (in_range : All IsLeafEntry entries)
    (sorted : ensure_sorted (keys next_leaf entries page) ≡ ok tt)
    (l : IsLeaf next_leaf entries page) where
  decode-IsLeaf : decode_leaf lsn page ≡ ok (PageData.leaf lsn next_leaf entries)
  unfolding decode_leaf check_body_size
  decode-IsLeaf =
      let whole : length page ≡ 4064 =
        length-page b'L' b'E' b'A' b'F' (encode_page_id next_leaf) encode_leaf_record entries page
          l in
      let h =
        page-Header b'L' b'E' b'A' b'F' (encode_page_id next_leaf) encode_leaf_record entries page
          l in
      let room : 32 + length l.records * 8 ≤ 4064 = omega (arith, l.room, l.upper_eq) in
      rw
        (
          whole,
          h.magic,
          h.version,
          check_version_current,
          read_word-le_bytes 2 page 6 (length l.records) (omega (arith, whole)) h.count_word
              (omega (arith, room)),
          read_word-le_bytes 2 page 8 (32 + length l.records * 8) (omega (arith, whole))
              h.slot_end_word (omega (arith, room)),
          read_word-le_bytes 2 page 10 l.upper (omega (arith, whole)) h.upper_word
              (omega (arith, l.upper_eq)),
          read_word-le_bytes 8 page 12 (encode_page_id next_leaf) (omega (arith, whole)) h.link_word
              (encode_page_id_bound next_leaf ref),
          h.reserved,
          region b'L' b'E' b'A' b'F' (encode_page_id next_leaf) encode_leaf_record entries page l,
          read b'L' b'E' b'A' b'F' (encode_page_id next_leaf) encode_leaf_record entries page l
              IsLeafEntry 31 decode_leaf_record decode_leaf_record-encode_leaf_record
              encode_leaf_record-IsRecord in_range,
          disjoint b'L' b'E' b'A' b'F' (encode_page_id next_leaf) encode_leaf_record entries page l
              IsLeafEntry 31 decode_leaf_record decode_leaf_record-encode_leaf_record
              encode_leaf_record-IsRecord,
          sorted,
          decode_page_id-encode_page_id next_leaf ref,
        )
        (ground arith)

-- A leaf body that encode_leaf returns, for entries whose fields are in range and a next leaf that
-- is not the null mark, decodes to the same next leaf and the same entries.
pub decode_leaf-encode_leaf :
    (lsn : ℕ) (next_leaf : Option ℕ) (entries : List LeafEntry) (page : List ℕ)
    → IsPageRef next_leaf
    → All IsLeafEntry entries
    → encode_leaf next_leaf entries ≡ ok page
    → decode_leaf lsn page ≡ ok (PageData.leaf lsn next_leaf entries)
decode_leaf-encode_leaf lsn next_leaf entries page ref in_range h =
    let (sorted, l) = encode_leaf-ok next_leaf entries page h in
    decode-IsLeaf lsn next_leaf entries page ref in_range sorted l
