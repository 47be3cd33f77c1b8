-- ===== src/Storage/Btree/LeafPage/Decode.antt =====
-- format.rs: `encode_leaf_record` and `decode_leaf_record` together.
use dodb.Core.Error.{invalid_input}
use dodb.Core.Key.{DocumentKey}
use dodb.Core.Key
use dodb.Bytes.{slice, from_le-one, from_le-zero, slice-part, U16}
use dodb.Storage.Btree.Entries.{ValueRef, LeafEntry, read_word}
use dodb.Storage.Btree.Entries.Laws.{read_word-le_bytes}
use dodb.Storage.Btree.Slots.{Record}
use dodb.Storage.Btree.Slots.Read.{IsRecord}
use dodb.Storage.Btree.LeafPage.{
  value_flags, value_length, value_aux, value_inline, leaf_record_bytes, encode_leaf_record,
  decode_value, decode_leaf_record,
}
use dodb.Storage.Btree.LeafPage.Entry.{
  IsValue, IsLeafEntry, length_bound, aux_bound, length-head, Header, Header-head, value_bytes,
  entry_head, record_form,
}
use dodb.Prelude.{
  ℕ, ◌+◌, ◌<◌, ◌≤◌, ◌≡◌, sym, ap, ◌∙◌, List, [], ◌++◌, Option, none, some, ok, length,
  length-append, append-nil, append_assoc, arith, subst, >>=-eq-ok, map_err, map_err-eq-ok, fail_if,
  ltb, ◌-◌, ok-injective,
}

decode_value-value :
    (v : Option ValueRef) (key_end : ℕ) (bytes : List ℕ)
    → IsValue v
    → length bytes ≡ key_end + length (value_inline v)
    → slice key_end (length (value_inline v)) bytes ≡ value_inline v
    → decode_value (value_flags v) (value_length v) (value_aux v) key_end bytes ≡ ok v
unfolding decode_value
decode_value-value none key_end bytes h size same = ground arith
decode_value-value (some (ValueRef.inline v)) key_end bytes h size same = rw same (ground arith)
decode_value-value (some (ValueRef.overflow first n)) key_end bytes h size same = ground arith

module _ (entry : LeafEntry) where
  abbrev bytes : List ℕ
  bytes = entry_head entry ++ (entry.key ++ value_bytes entry)

  head_size : length (entry_head entry) ≡ 32
  head_size =
      length-head entry.revision (value_length entry.value) (value_aux entry.value)
        (value_flags entry.value) (length entry.key)

  length-bytes : length bytes ≡ 32 + length entry.key + length (value_bytes entry)
  length-bytes = omega (
    arith,
    length-append (entry_head entry) (entry.key ++ value_bytes entry),
    length-append entry.key (value_bytes entry),
    head_size,
  )

module _ (entry : LeafEntry) (is_entry : IsLeafEntry entry) (small : length entry.key < U16) where
  fields :
      Header entry.revision
        (value_length entry.value)
        (value_aux entry.value)
        (value_flags entry.value)
        (length entry.key)
        (bytes entry)
  fields =
      Header-head entry.revision (value_length entry.value) (value_aux entry.value)
        (value_flags entry.value) (length entry.key) (entry.key ++ value_bytes entry)

  key_slice : slice 32 (length entry.key) (bytes entry) ≡ entry.key
  key_slice = slice-part (entry_head entry) entry.key (value_bytes entry) (sym (head_size entry))

  value_slice :
      slice (32 + length entry.key) (length (value_bytes entry)) (bytes entry) ≡ value_bytes entry
  value_slice =
      ap (slice (32 + length entry.key) (length (value_bytes entry))) (
        sym (append_assoc (entry_head entry) entry.key (value_bytes entry))
        ∙ ap (λ l. (entry_head entry ++ entry.key) ++ l) (sym (append-nil (value_bytes entry))))
      ∙ slice-part (entry_head entry ++ entry.key) (value_bytes entry) []
          (omega (arith, length-append (entry_head entry) entry.key, head_size entry))

  module _ (key : DocumentKey) (parsed : Key.decode entry.key ≡ ok key) where
    decode_bytes : decode_leaf_record (bytes entry) (length entry.key) ≡ ok entry
    unfolding decode_leaf_record
    decode_bytes =
        let revision_read : read_word 8 (bytes entry) 0 ≡ ok entry.revision =
          read_word-le_bytes 8 (bytes entry) 0 entry.revision (omega (arith, length-bytes entry))
            fields.revision_word (omega (arith, is_entry.revision_u64)) in
        let size_read : read_word 8 (bytes entry) 8 ≡ ok (value_length entry.value) =
          read_word-le_bytes 8 (bytes entry) 8 (value_length entry.value)
            (omega (arith, length-bytes entry)) fields.size_word
            (omega (arith, length_bound entry.value is_entry.is_value)) in
        let aux_read : read_word 8 (bytes entry) 16 ≡ ok (value_aux entry.value) =
          read_word-le_bytes 8 (bytes entry) 16 (value_aux entry.value)
            (omega (arith, length-bytes entry)) fields.aux_word
            (omega (arith, aux_bound entry.value is_entry.is_value)) in
        let key_read : read_word 2 (bytes entry) 26 ≡ ok (length entry.key) =
          read_word-le_bytes 2 (bytes entry) 26 (length entry.key)
            (omega (arith, length-bytes entry)) fields.key_word (omega (arith, small)) in
        rw
          (
            revision_read,
            size_read,
            aux_read,
            fields.flags_byte,
            from_le-one (value_flags entry.value),
            fields.reserved,
            from_le-zero,
            fields.reserved_end,
            key_read,
            key_slice,
            parsed,
            decode_value-value entry.value (32 + length entry.key) (bytes entry) is_entry.is_value
                (length-bytes entry) value_slice,
          )
          (ground (arith, length-bytes entry, length_bound entry.value is_entry.is_value))

length-record : (entry : LeafEntry) → 32 ≤ length (leaf_record_bytes entry)
length-record entry = omega (arith, ap length (record_form entry), length-bytes entry)

-- What a record that was encoded is.
encoded :
    (entry : LeafEntry) (r : Record)
    → encode_leaf_record entry ≡ ok r
    → (length entry.key < U16)
      × ((key : DocumentKey) × (Key.decode entry.key ≡ ok key))
      × ((leaf_record_bytes entry, length entry.key) ≡ r)
unfolding encode_leaf_record
encoded entry r h =
    let (done, size, after) =
      >>=-eq-ok (fail_if (ltb (U16 - 1) (length entry.key)) invalid_input) _ h in
    let (key, parsed, last) =
      >>=-eq-ok (map_err (λ e. invalid_input) (Key.decode entry.key)) _ after in
    (
      ground (arith, size),
      (key, map_err-eq-ok (λ e. invalid_input) (Key.decode entry.key) parsed),
      ok-injective last,
    )

pub decode_leaf_record-encode_leaf_record :
    (entry : LeafEntry) (r : Record)
    → IsLeafEntry entry
    → encode_leaf_record entry ≡ ok r
    → decode_leaf_record r.0 r.1 ≡ ok entry
decode_leaf_record-encode_leaf_record entry r is_entry h =
    let (small, (key, parsed), same) = encoded entry r h in
    subst (λ s. decode_leaf_record s.0 s.1 ≡ ok entry) same
      (ap (λ b. decode_leaf_record b (length entry.key)) (record_form entry)
        ∙ decode_bytes entry is_entry small key parsed)

pub encode_leaf_record-IsRecord :
    (entry : LeafEntry) (r : Record) → encode_leaf_record entry ≡ ok r → IsRecord 32 r
encode_leaf_record-IsRecord entry r h =
    let (small, parsed, same) = encoded entry r h in
    subst (IsRecord 32) same (omega (arith, length-record entry), small)
