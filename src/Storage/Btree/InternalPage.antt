-- ===== src/Storage/Btree/InternalPage.antt =====
-- crates/dodb-storage/src/btree/format.rs: internal pages.
pub mod Entry
pub mod RoundTrip
use dodb.Core.Error.{Result, invalid_input, corruption}
use dodb.Core.Key
use dodb.Bytes.{slice, copy_at, zeros, le_bytes, eq_bytes, all_zero, U16}
use dodb.Storage.Btree.Entries.{
  InternalEntry, PageData, body_size, layout_version, slotted_header_size, slot_size,
  check_body_size, read_word, check_version, ensure_sorted,
}
use dodb.Storage.Btree.Slots.{
  Record, place_records, write_slots, validate_slot_region, ensure_non_overlapping, read_slots,
}
use dodb.Prelude.{
  ℕ, ◌+◌, ◌-◌, ◌*◌, Bool, true, false, not, ◌||◌, List, [], ◌∷◌, ok, err, ◌>>=◌, ◌>>◌, fail_if,
  map_err, ◌==◌, ltb, length, drop, map,
}
use mathlib.Core.List.{reverse}

-- `*b"INTN"`
abbrev pub internal_magic : List ℕ
internal_magic = b'I' ∷ b'N' ∷ b'T' ∷ b'N' ∷ []

abbrev pub internal_record_header_size : ℕ
internal_record_header_size = 12

unfoldable pub internal_record_bytes : InternalEntry → List ℕ
internal_record_bytes entry =
    let key_length = length entry.key in
    let r0 = zeros (internal_record_header_size + key_length) in
    let r1 = copy_at 0 2 (le_bytes 2 key_length) r0 in
    let r2 = copy_at 4 8 (le_bytes 8 entry.right_child) r1 in
    copy_at internal_record_header_size key_length entry.key r2

unfoldable pub encode_internal_record : InternalEntry → Result Record
encode_internal_record entry = do
  fail_if (ltb (U16 - 1) (length entry.key) || ltb entry.right_child 2) invalid_input
  parsed ← map_err (λ e. invalid_input) (Key.decode entry.key)
  ok (internal_record_bytes entry, length entry.key)

unfoldable pub encode_internal : ℕ → List InternalEntry → Result (List ℕ)
encode_internal leftmost_child entries = do
  fail_if (ltb leftmost_child 2) invalid_input
  let slot_bytes = slotted_header_size + length entries * slot_size
  fail_if (ltb (U16 - 1) (length entries) || ltb body_size slot_bytes) invalid_input
  ensure_sorted (map (λ (e : InternalEntry). e.key) entries)
  let b0 = copy_at 0 4 internal_magic (zeros body_size)
  let b1 = copy_at 4 2 (le_bytes 2 layout_version) b0
  let b2 = copy_at 6 2 (le_bytes 2 (length entries)) b1
  let b3 = copy_at 8 2 (le_bytes 2 slot_bytes) b2
  let b4 = copy_at 12 8 (le_bytes 8 leftmost_child) b3
  (upper, body, slots) ←
      place_records encode_internal_record slot_bytes (reverse entries) body_size b4 []
  ok (write_slots slotted_header_size slots (copy_at 10 2 (le_bytes 2 upper) body))

unfoldable pub internal_fits : ℕ → List InternalEntry → Bool
internal_fits leftmost_child entries = elim (encode_internal leftmost_child entries) [
  | ok body ↦ true
  | err e ↦ false
]

-- The body of `decode_internal`'s loop, on one record.
unfoldable pub decode_internal_record : List ℕ → ℕ → Result InternalEntry
decode_internal_record bytes key_length = do
  record_key_length ← read_word 2 bytes 0
  fail_if (not (all_zero (slice 2 2 bytes)) || not (record_key_length == key_length)) corruption
  fail_if (not (length bytes == internal_record_header_size + key_length)) corruption
  right_child ← read_word 8 bytes 4
  fail_if (ltb right_child 2) corruption
  let key = drop internal_record_header_size bytes
  parsed ← map_err (λ e. corruption) (Key.decode key)
  ok (record { key = key; right_child = right_child })

unfoldable pub decode_internal : ℕ → List ℕ → Result PageData
decode_internal lsn body = do
  check_body_size body
  fail_if (not (eq_bytes (slice 0 4 body) internal_magic)) corruption
  check_version (slice 4 2 body)
  count ← read_word 2 body 6
  slot_end ← read_word 2 body 8
  records_start ← read_word 2 body 10
  leftmost_child ← read_word 8 body 12
  fail_if (ltb leftmost_child 2 || not (all_zero (slice 20 12 body))) corruption
  validate_slot_region count slot_end records_start slotted_header_size (length body)
  (entries, ranges) ←
      read_slots internal_record_header_size decode_internal_record records_start count
        slotted_header_size body
  ensure_non_overlapping ranges
  ensure_sorted (map (λ (e : InternalEntry). e.key) entries)
  ok (PageData.internal lsn leftmost_child entries)
