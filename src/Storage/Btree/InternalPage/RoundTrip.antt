-- ===== src/Storage/Btree/InternalPage/RoundTrip.antt =====
-- format.rs: `encode_internal` and `decode_internal` together.
use dodb.Core.Error.{invalid_input}
use dodb.Bytes.{U16, U64}
use dodb.Storage.Btree.Entries.{InternalEntry, PageData, check_body_size, ensure_sorted}
use dodb.Storage.Btree.Entries.Laws.{read_word-le_bytes, check_version_current}
use dodb.Storage.Btree.Slots.{place_records}
use dodb.Storage.Btree.Slots.Place.{place_records-Placed}
use dodb.Storage.Btree.Slots.Page.{LaidOut, LaidOut-placed, page_start, length-page_start}
use dodb.Storage.Btree.Slots.Decode.{length-page, page-Header, region, disjoint, read}
use dodb.Storage.Btree.InternalPage.{
  encode_internal_record, encode_internal, decode_internal_record, decode_internal,
}
use dodb.Storage.Btree.InternalPage.Entry.{
  IsInternalEntry, decode_internal_record-encode_internal_record, encode_internal_record-IsRecord,
}
use dodb.Prelude.{
  ℕ, ◌+◌, ◌-◌, ◌*◌, ◌<◌, ◌≤◌, ◌≡◌, subst, List, [], ok, ok-injective, >>=-eq-ok, fail_if, ltb, ◌||◌,
  length, map, All, arith,
}
use mathlib.Core.List.{reverse}

abbrev IsInternal : ℕ → List InternalEntry → List ℕ → Type 0
IsInternal leftmost entries page =
    LaidOut b'I' b'N' b'T' b'N' leftmost encode_internal_record entries page

module _ (leftmost : ℕ) (entries : List InternalEntry) (page : List ℕ) where
  abbrev keys : List (List ℕ)
  keys = map (λ (e : InternalEntry). e.key) entries

  encode_internal-ok :
      encode_internal leftmost entries ≡ ok page
      → (2 ≤ leftmost) × (ensure_sorted keys ≡ ok tt) × IsInternal leftmost entries page
  unfolding encode_internal
  encode_internal-ok h =
      let slot_bytes = 32 + length entries * 8 in
      let (first, child, checked) = >>=-eq-ok (fail_if (ltb leftmost 2) invalid_input) _ h in
      let (done, size, after) =
        >>=-eq-ok (fail_if (ltb (U16 - 1) (length entries) || ltb 4064 slot_bytes) invalid_input) _
          checked in
      let (done', sorted, rest) = >>=-eq-ok (ensure_sorted keys) _ after in
      let (out, placed, last) =
        >>=-eq-ok
          (place_records encode_internal_record slot_bytes (reverse entries) 4064
            (page_start b'I' b'N' b'T' b'N' (length entries) slot_bytes leftmost) [])
          _ rest in
      (
        ground (arith, child),
        sorted,
        subst (IsInternal leftmost entries) (ok-injective last) (
            LaidOut-placed b'I' b'N' b'T' b'N' leftmost encode_internal_record entries out (
              place_records-Placed encode_internal_record slot_bytes (reverse entries) 4064 _ []
                (ground (arith, size))
                (omega (
                  arith,
                  length-page_start b'I' b'N' b'T' b'N' (length entries) slot_bytes leftmost,
                ))
                placed)),
      )

module _ (lsn : ℕ) (leftmost : ℕ) (entries : List InternalEntry) (page : List ℕ)
    (child : 2 ≤ leftmost) (child_u64 : leftmost < U64) (in_range : All IsInternalEntry entries)
    (sorted : ensure_sorted (keys leftmost entries page) ≡ ok tt)
    (l : IsInternal leftmost entries page) where
  decode-IsInternal : decode_internal lsn page ≡ ok (PageData.internal lsn leftmost entries)
  unfolding decode_internal check_body_size
  decode-IsInternal =
      let whole : length page ≡ 4064 =
        length-page b'I' b'N' b'T' b'N' leftmost encode_internal_record entries page l in
      let h = page-Header b'I' b'N' b'T' b'N' leftmost encode_internal_record entries page l in
      let room : 32 + length l.records * 8 ≤ 4064 = omega (arith, l.room, l.upper_eq) in
      rw
        (
          whole,
          h.magic,
          h.version,
          check_version_current,
          read_word-le_bytes 2 page 6 (length l.records) (omega (arith, whole)) h.count_word
              (omega (arith, room)),
          read_word-le_bytes 2 page 8 (32 + length l.records * 8) (omega (arith, whole))
              h.slot_end_word (omega (arith, room)),
          read_word-le_bytes 2 page 10 l.upper (omega (arith, whole)) h.upper_word
              (omega (arith, l.upper_eq)),
          read_word-le_bytes 8 page 12 leftmost (omega (arith, whole)) h.link_word child_u64,
          h.reserved,
          region b'I' b'N' b'T' b'N' leftmost encode_internal_record entries page l,
          read b'I' b'N' b'T' b'N' leftmost encode_internal_record entries page l IsInternalEntry 11
              decode_internal_record decode_internal_record-encode_internal_record
              encode_internal_record-IsRecord in_range,
          disjoint b'I' b'N' b'T' b'N' leftmost encode_internal_record entries page l
              IsInternalEntry 11 decode_internal_record
              decode_internal_record-encode_internal_record encode_internal_record-IsRecord,
          sorted,
        )
        (ground (arith, child))

-- An internal body that encode_internal returns, for children that are 64-bit numbers, decodes to
-- the same leftmost child and the same separators with their right children.
pub decode_internal-encode_internal :
    (lsn : ℕ) (leftmost : ℕ) (entries : List InternalEntry) (page : List ℕ)
    → leftmost < U64
    → All IsInternalEntry entries
    → encode_internal leftmost entries ≡ ok page
    → decode_internal lsn page ≡ ok (PageData.internal lsn leftmost entries)
decode_internal-encode_internal lsn leftmost entries page child_u64 in_range h =
    let (child, sorted, l) = encode_internal-ok leftmost entries page h in
    decode-IsInternal lsn leftmost entries page child child_u64 in_range sorted l
