-- ===== src/Storage/Btree/Slots.antt =====
-- crates/dodb-storage/src/btree/format.rs: the slotted layout that leaf and internal pages share.
-- `encode_leaf` and `encode_internal` differ in the record that they write for an entry; that
-- encoder is an argument here, and so is the record decoder of `decode_leaf` and `decode_internal`.
pub mod Layout
pub mod Place
pub mod Read
pub mod Page
pub mod Decode
use dodb.Core.Error.{Error, Result, invalid_input, corruption}
use dodb.Bytes.{slice, copy_at, le_bytes}
use dodb.Storage.Btree.Entries.{body_size, slotted_header_size, slot_size, read_word}
use dodb.Prelude.{
  ℕ, zero, suc, ◌+◌, ◌-◌, ◌*◌, Bool, true, false, not, ◌||◌, ◌&&◌, List, [], ◌∷◌, ok, err, ◌>>=◌,
  ◌>>◌, fail_if, ◌==◌, leb, ltb, length, if◌then◌else◌,
}

-- A record's bytes and the length of its key.
abbrev pub Record : Type 0
Record = List ℕ × ℕ

-- `(offset, length, key_length)`
abbrev pub Slot : Type 0
Slot = ℕ × ℕ × ℕ

module _ {E : Type 0} (encode_record : E → Result Record) where
  -- The loop over `entries.iter().rev()`. The list of slots grows at its front, so it is in the
  -- order that `slots.reverse()` leaves.
  unfoldable pub place_records :
      ℕ → List E → ℕ → List ℕ → List Slot → Result (ℕ × List ℕ × List Slot)
  place_records slot_bytes [] upper body slots = ok (upper, body, slots)
  place_records slot_bytes (entry ∷ entries) upper body slots = do
    (bytes, key_length) ← encode_record entry
    fail_if (ltb upper (length bytes)) invalid_input
    let lower = upper - length bytes
    fail_if (ltb lower slot_bytes) invalid_input
    place_records slot_bytes entries lower (copy_at lower (length bytes) bytes body)
        ((lower, length bytes, key_length) ∷ slots)

-- The loop that writes the slot array; the first argument is the position of the next slot.
unfoldable pub write_slots : ℕ → List Slot → List ℕ → List ℕ
write_slots slot [] body = body
write_slots slot ((offset, record_length, key_length) ∷ slots) body =
    write_slots (slot + slot_size) slots (
      copy_at (slot + 4) 2 (le_bytes 2 key_length)
        (copy_at (slot + 2) 2 (le_bytes 2 record_length) (copy_at slot 2 (le_bytes 2 offset) body)))

unfoldable pub validate_slot_region : ℕ → ℕ → ℕ → ℕ → ℕ → Result (Unit {0})
validate_slot_region count slot_end records_start header_size body_len =
    fail_if
      (not (slot_end == header_size + count * slot_size)
        || (ltb records_start slot_end || (ltb body_len records_start || ltb body_len slot_end)))
      corruption

-- `sort_unstable` on pairs: by the first component, then by the second.
abbrev pub le_range : ℕ × ℕ → ℕ × ℕ → Bool
le_range (a, b) (c, d) = ltb a c || (a == c && leb b d)

unfoldable pub insert_range : ℕ × ℕ → List (ℕ × ℕ) → List (ℕ × ℕ)
insert_range r [] = r ∷ []
insert_range r (s ∷ ranges) =
    let rest = insert_range r ranges in if le_range r s then r ∷ s ∷ ranges else s ∷ rest

unfoldable pub sort_ranges : List (ℕ × ℕ) → List (ℕ × ℕ)
sort_ranges [] = []
sort_ranges (r ∷ ranges) = insert_range r (sort_ranges ranges)

-- The loop over `ranges.windows(2)`.
unfoldable pub check_windows : List (ℕ × ℕ) → Result (Unit {0})
check_windows [] = ok tt
check_windows (r ∷ []) = ok tt
check_windows (r ∷ s ∷ ranges) =
    let rest = check_windows (s ∷ ranges) in if ltb s.0 r.1 then err corruption else rest

unfoldable pub ensure_non_overlapping : List (ℕ × ℕ) → Result (Unit {0})
unfolding sort_ranges insert_range check_windows
ensure_non_overlapping ranges = check_windows (sort_ranges ranges)

module _ {E : Type 0} (min_length : ℕ) (decode_record : List ℕ → ℕ → Result E) where
  -- The loop over the slots: how many are left, and the position of the next one.
  unfoldable pub read_slots : ℕ → ℕ → ℕ → List ℕ → Result (List E × List (ℕ × ℕ))
  read_slots records_start zero slot body = ok ([], [])
  read_slots records_start (suc left) slot body = do
    offset ← read_word 2 body slot
    record_length ← read_word 2 body (slot + 2)
    key_length ← read_word 2 body (slot + 4)
    let end = offset + record_length
    fail_if (ltb offset records_start || (ltb (length body) end || ltb record_length min_length))
        corruption
    entry ← decode_record (slice offset record_length body) key_length
    (entries, ranges) ← read_slots records_start left (slot + slot_size) body
    ok (entry ∷ entries, (offset, end) ∷ ranges)
