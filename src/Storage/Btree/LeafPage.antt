-- ===== src/Storage/Btree/LeafPage.antt =====
-- crates/dodb-storage/src/btree/format.rs: leaf pages.
pub mod Entry
pub mod Decode
pub mod RoundTrip
use dodb.Core.Error.{Result, invalid_input, corruption}
use dodb.Core.Key
use dodb.Bytes.{slice, copy_at, zeros, le_bytes, byte_at, eq_bytes, all_zero, U16}
use dodb.Storage.Btree.Entries.{
  ValueRef, LeafEntry, PageData, body_size, null_page_id, layout_version, max_value_size,
  slotted_header_size, slot_size, encode_page_id, decode_page_id, check_body_size, read_word,
  check_version, ensure_sorted,
}
use dodb.Storage.Btree.Slots.{
  Record, place_records, write_slots, validate_slot_region, ensure_non_overlapping, read_slots,
}
use dodb.Prelude.{
  ℕ, ◌+◌, ◌-◌, ◌*◌, Bool, true, false, not, ◌||◌, List, [], ◌∷◌, Option, none, some, ok, err, ◌>>=◌,
  ◌>>◌, fail_if, map_err, ◌==◌, ltb, length, map, if◌then◌else◌,
}
use mathlib.Core.List.{reverse}

-- `*b"LEAF"`
abbrev pub leaf_magic : List ℕ
leaf_magic = b'L' ∷ b'E' ∷ b'A' ∷ b'F' ∷ []

abbrev pub leaf_record_header_size : ℕ
leaf_record_header_size = 32

abbrev pub value_flags : Option ValueRef → ℕ
value_flags none = 0
value_flags (some (ValueRef.inline v)) = 1
value_flags (some (ValueRef.overflow head size)) = 2

abbrev pub value_length : Option ValueRef → ℕ
value_length none = 0
value_length (some (ValueRef.inline v)) = length v
value_length (some (ValueRef.overflow head size)) = size

abbrev pub value_aux : Option ValueRef → ℕ
value_aux none = null_page_id
value_aux (some (ValueRef.inline v)) = 0
value_aux (some (ValueRef.overflow head size)) = head

abbrev pub value_inline : Option ValueRef → List ℕ
value_inline none = []
value_inline (some (ValueRef.inline v)) = v
value_inline (some (ValueRef.overflow head size)) = []

-- The bytes of a record, before and behind its checks.
unfoldable pub leaf_record_bytes : LeafEntry → List ℕ
leaf_record_bytes entry =
    let key_length = length entry.key in
    let inline_length = length (value_inline entry.value) in
    let r0 = zeros (leaf_record_header_size + key_length + inline_length) in
    let r1 = copy_at 0 8 (le_bytes 8 entry.revision) r0 in
    let r2 = copy_at 8 8 (le_bytes 8 (value_length entry.value)) r1 in
    let r3 = copy_at 16 8 (le_bytes 8 (value_aux entry.value)) r2 in
    let r4 = copy_at 24 1 (value_flags entry.value ∷ []) r3 in
    let r5 = copy_at 26 2 (le_bytes 2 key_length) r4 in
    let r6 = copy_at leaf_record_header_size key_length entry.key r5 in
    copy_at (leaf_record_header_size + key_length) inline_length (value_inline entry.value) r6

unfoldable pub encode_leaf_record : LeafEntry → Result Record
encode_leaf_record entry = do
  fail_if (ltb (U16 - 1) (length entry.key)) invalid_input
  parsed ← map_err (λ e. invalid_input) (Key.decode entry.key)
  ok (leaf_record_bytes entry, length entry.key)

unfoldable pub encode_leaf : Option ℕ → List LeafEntry → Result (List ℕ)
encode_leaf next_leaf entries = do
  let slot_bytes = slotted_header_size + length entries * slot_size
  fail_if (ltb (U16 - 1) (length entries) || ltb body_size slot_bytes) invalid_input
  ensure_sorted (map (λ (e : LeafEntry). e.key) entries)
  let b0 = copy_at 0 4 leaf_magic (zeros body_size)
  let b1 = copy_at 4 2 (le_bytes 2 layout_version) b0
  let b2 = copy_at 6 2 (le_bytes 2 (length entries)) b1
  let b3 = copy_at 8 2 (le_bytes 2 slot_bytes) b2
  let b4 = copy_at 12 8 (le_bytes 8 (encode_page_id next_leaf)) b3
  (upper, body, slots) ←
      place_records encode_leaf_record slot_bytes (reverse entries) body_size b4 []
  ok (write_slots slotted_header_size slots (copy_at 10 2 (le_bytes 2 upper) body))

-- `leaf_fits`
unfoldable pub leaf_fits : List LeafEntry → Bool
leaf_fits entries = elim (encode_leaf none entries) [ ok body ↦ true | err e ↦ false ]

-- The three states of a value; the flags select one.
unfoldable pub decode_value : ℕ → ℕ → ℕ → ℕ → List ℕ → Result (Option ValueRef)
decode_value flags size aux key_end bytes =
    if flags == 0
    then (do
      fail_if (not (size == 0) || (not (aux == null_page_id) || not (length bytes == key_end)))
          corruption
      ok none)
    else if flags == 1
    then (do
      fail_if (not (key_end + size == length bytes) || not (aux == 0)) corruption
      ok (some (ValueRef.inline (slice key_end size bytes))))
    else if flags == 2
    then (do
      fail_if (not (length bytes == key_end) || (aux == null_page_id || size == 0)) corruption
      ok (some (ValueRef.overflow aux size)))
    else err corruption

unfoldable pub decode_leaf_record : List ℕ → ℕ → Result LeafEntry
decode_leaf_record bytes slot_key_length = do
  revision ← read_word 8 bytes 0
  size ← read_word 8 bytes 8
  fail_if (ltb max_value_size size) corruption
  aux ← read_word 8 bytes 16
  let flags = byte_at 24 bytes
  fail_if (not (byte_at 25 bytes == 0) || not (all_zero (slice 28 4 bytes))) corruption
  key_length ← read_word 2 bytes 26
  fail_if (not (key_length == slot_key_length)) corruption
  let key_end = leaf_record_header_size + key_length
  fail_if (ltb (length bytes) key_end) corruption
  let key = slice leaf_record_header_size key_length bytes
  parsed ← map_err (λ e. corruption) (Key.decode key)
  value ← decode_value flags size aux key_end bytes
  ok (record { key = key; revision = revision; value = value })

unfoldable pub decode_leaf : ℕ → List ℕ → Result PageData
decode_leaf lsn body = do
  check_body_size body
  fail_if (not (eq_bytes (slice 0 4 body) leaf_magic)) corruption
  check_version (slice 4 2 body)
  count ← read_word 2 body 6
  slot_end ← read_word 2 body 8
  records_start ← read_word 2 body 10
  next ← read_word 8 body 12
  fail_if (not (all_zero (slice 20 12 body))) corruption
  validate_slot_region count slot_end records_start slotted_header_size (length body)
  (entries, ranges) ←
      read_slots leaf_record_header_size decode_leaf_record records_start count slotted_header_size
        body
  ensure_non_overlapping ranges
  ensure_sorted (map (λ (e : LeafEntry). e.key) entries)
  ok (PageData.leaf lsn (decode_page_id next) entries)
