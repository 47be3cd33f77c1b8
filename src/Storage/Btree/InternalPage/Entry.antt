-- ===== src/Storage/Btree/InternalPage/Entry.antt =====
-- format.rs: the records of internal pages, encoded and decoded.
use dodb.Core.Error.{invalid_input}
use dodb.Core.Key.{DocumentKey}
use dodb.Core.Key
use dodb.Bytes.{slice, copy_at, zeros, le_bytes, all_zero, zeros-add, drop-zeros, U16, U64}
use dodb.Storage.Btree.Entries.{InternalEntry}
use dodb.Storage.Btree.Entries.Laws.{read_word-le_bytes}
use dodb.Storage.Btree.Slots.{Record}
use dodb.Storage.Btree.Slots.Read.{IsRecord}
use dodb.Storage.Btree.InternalPage.{
  internal_record_bytes, encode_internal_record, decode_internal_record,
}
use dodb.Prelude.{
  ℕ, ◌+◌, ◌-◌, ◌<◌, ◌≤◌, ◌≡◌, refl, ap, subst, ◌∙◌, List, ◌∷◌, ◌++◌, ok, true, length, drop,
  append-nil, arith, fail_if, ltb, ◌||◌, map_err, map_err-eq-ok, >>=-eq-ok, ok-injective,
}

abbrev pub IsInternalEntry : InternalEntry → Type 0
IsInternalEntry entry = entry.right_child < U64

module _ (key_length child : ℕ) where
  unfoldable head : List ℕ
  head = le_bytes 2 key_length ++ (0 ∷ 0 ∷ le_bytes 8 child)

  written_record :
      (key rest : List ℕ)
      → copy_at 12 key_length key
          (copy_at 4 8 (le_bytes 8 child) (copy_at 0 2 (le_bytes 2 key_length) (zeros 12 ++ rest)))
        ≡ head ++ (key ++ drop key_length rest)
  unfolding head copy_at le_bytes zeros
  written_record key rest = refl

  record Header (bytes key : List ℕ) : Type 0 where
    key_word : slice 0 2 bytes ≡ le_bytes 2 key_length
    reserved : all_zero (slice 2 2 bytes) ≡ true
    child_word : slice 4 8 bytes ≡ le_bytes 8 child
    key_bytes : drop 12 bytes ≡ key
    size : length bytes ≡ 12 + length key

  Header-head : (key : List ℕ) → Header (head ++ key) key
  unfolding head le_bytes slice
  Header-head key = record {
    key_word = refl;
    reserved = refl;
    child_word = refl;
    key_bytes = refl;
    size = omega arith;
  }

module _ (entry : InternalEntry) where
  abbrev bytes : List ℕ
  bytes = head (length entry.key) entry.right_child ++ entry.key

  record_form : internal_record_bytes entry ≡ bytes
  unfolding internal_record_bytes zeros
  record_form =
      ap
        (λ blank. copy_at 12 (length entry.key) entry.key (
          copy_at 4 8 (le_bytes 8 entry.right_child)
            (copy_at 0 2 (le_bytes 2 (length entry.key)) blank)))
        (zeros-add 12 (length entry.key))
      ∙ written_record (length entry.key) entry.right_child entry.key (zeros (length entry.key))
      ∙ ap (λ l. head (length entry.key) entry.right_child ++ (entry.key ++ l))
          (drop-zeros (length entry.key) (length entry.key)
            ∙ ap zeros (let e : length entry.key - length entry.key ≡ 0 = omega arith in e))
      ∙ ap (λ l. head (length entry.key) entry.right_child ++ l) (append-nil entry.key)

  fields : Header (length entry.key) entry.right_child bytes entry.key
  fields = Header-head (length entry.key) entry.right_child entry.key

  module _ (key : DocumentKey) (parsed : Key.decode entry.key ≡ ok key)
      (small : length entry.key < U16) (child : 2 ≤ entry.right_child)
      (child_u64 : entry.right_child < U64) where
    decode_bytes : decode_internal_record bytes (length entry.key) ≡ ok entry
    unfolding decode_internal_record
    decode_bytes =
        rw
          (
            read_word-le_bytes 2 bytes 0 (length entry.key) (omega (arith, fields.size))
                fields.key_word (omega (arith, small)),
            fields.reserved,
            fields.size,
            read_word-le_bytes 8 bytes 4 entry.right_child (omega (arith, fields.size))
                fields.child_word (omega (arith, child_u64)),
            fields.key_bytes,
            parsed,
          )
          (ground (arith, child))

encoded :
    (entry : InternalEntry) (r : Record)
    → encode_internal_record entry ≡ ok r
    → (length entry.key < U16)
      × (2 ≤ entry.right_child)
      × ((key : DocumentKey) × (Key.decode entry.key ≡ ok key))
      × ((internal_record_bytes entry, length entry.key) ≡ r)
unfolding encode_internal_record
encoded entry r h =
    let (done, size, after) =
      >>=-eq-ok
        (fail_if (ltb (U16 - 1) (length entry.key) || ltb entry.right_child 2) invalid_input) _ h in
    let (key, parsed, last) =
      >>=-eq-ok (map_err (λ e. invalid_input) (Key.decode entry.key)) _ after in
    (
      ground (arith, size),
      ground (arith, size),
      (key, map_err-eq-ok (λ e. invalid_input) (Key.decode entry.key) parsed),
      ok-injective last,
    )

pub decode_internal_record-encode_internal_record :
    (entry : InternalEntry) (r : Record)
    → IsInternalEntry entry
    → encode_internal_record entry ≡ ok r
    → decode_internal_record r.0 r.1 ≡ ok entry
decode_internal_record-encode_internal_record entry r is_entry h =
    let (small, child, (key, parsed), same) = encoded entry r h in
    subst (λ s. decode_internal_record s.0 s.1 ≡ ok entry) same
      (ap (λ b. decode_internal_record b (length entry.key)) (record_form entry)
        ∙ decode_bytes entry key parsed small child is_entry)

pub encode_internal_record-IsRecord :
    (entry : InternalEntry) (r : Record) → encode_internal_record entry ≡ ok r → IsRecord 12 r
encode_internal_record-IsRecord entry r h =
    let (small, child, parsed, same) = encoded entry r h in
    let f = fields entry in
    subst (IsRecord 12) same (omega (arith, ap length (record_form entry), f.size), small)
