-- ===== src/Storage/Btree/LeafPage/Entry.antt =====
-- format.rs: the bytes of a leaf record.

use dodb.Bytes.{
  slice, copy_at, zeros, le_bytes, all_zero, zeros-add, length-zeros, drop-zeros, copy_at-append,
  U64,
}
use dodb.Storage.Btree.Entries.{ValueRef, LeafEntry, max_value_size}
use dodb.Storage.Btree.LeafPage.{
  value_flags, value_length, value_aux, value_inline, leaf_record_bytes,
}
use dodb.Prelude.{
  ℕ, ◌+◌, ◌-◌, ◌<◌, ◌≤◌, ◌≡◌, refl, sym, ap, ◌∙◌, List, [], ◌∷◌, ◌++◌, Option, none, some, true,
  length, drop, drop-length_append, append-nil, arith,
}

-- What the stored form of a value can carry.
abbrev pub IsValue : Option ValueRef → Type 0
IsValue none = Unit
IsValue (some (ValueRef.inline v)) = length v ≤ max_value_size
IsValue (some (ValueRef.overflow head size)) =
    (head < U64 - 1) × (0 < size) × (size ≤ max_value_size)

-- The fields of an entry are in the range of their types.
pub record IsLeafEntry (entry : LeafEntry) : Type 0 where
  pub revision_u64 : entry.revision < U64
  pub is_value : IsValue entry.value

pub length_bound : (v : Option ValueRef) → IsValue v → value_length v ≤ max_value_size
length_bound none h = omega arith
length_bound (some (ValueRef.inline v)) h = h
length_bound (some (ValueRef.overflow head size)) h = omega arith

pub aux_bound : (v : Option ValueRef) → IsValue v → value_aux v < U64
aux_bound none h = omega arith
aux_bound (some (ValueRef.inline v)) h = omega arith
aux_bound (some (ValueRef.overflow head size)) h = omega arith

-- The header of a record.
module _ (revision size aux flags key_length : ℕ) where
  unfoldable pub head : List ℕ
  head =
      le_bytes 8 revision
      ++ (le_bytes 8 size ++ (le_bytes 8 aux ++ (flags ∷ 0 ∷ (le_bytes 2 key_length ++ zeros 4))))

  pub length-head : length head ≡ 32
  unfolding head le_bytes zeros
  length-head = refl

  abbrev written_header : List ℕ → List ℕ → List ℕ
  written_header key blank_bytes = copy_at 32 key_length key (
      copy_at 26 2 (le_bytes 2 key_length) (
        copy_at 24 1 (flags ∷ []) (
          copy_at 16 8 (le_bytes 8 aux)
            (copy_at 8 8 (le_bytes 8 size) (copy_at 0 8 (le_bytes 8 revision) blank_bytes)))))

  header_written :
      (key rest : List ℕ)
      → written_header key (zeros 32 ++ rest) ≡ head ++ (key ++ drop key_length rest)
  unfolding head copy_at le_bytes zeros
  header_written key rest = refl

  pub record Header (bytes : List ℕ) : Type 0 where
    pub revision_word : slice 0 8 bytes ≡ le_bytes 8 revision
    pub size_word : slice 8 8 bytes ≡ le_bytes 8 size
    pub aux_word : slice 16 8 bytes ≡ le_bytes 8 aux
    pub flags_byte : slice 24 1 bytes ≡ flags ∷ []
    pub reserved : slice 25 1 bytes ≡ 0 ∷ []
    pub reserved_end : all_zero (slice 28 4 bytes) ≡ true
    pub key_word : slice 26 2 bytes ≡ le_bytes 2 key_length

  pub Header-head : (rest : List ℕ) → Header (head ++ rest)
  unfolding head le_bytes zeros slice
  Header-head rest = record {
    revision_word = refl;
    size_word = refl;
    aux_word = refl;
    flags_byte = refl;
    reserved = refl;
    reserved_end = refl;
    key_word = refl;
  }

blank : (k i : ℕ) → zeros (32 + k + i) ≡ zeros 32 ++ (zeros k ++ zeros i)
blank k i =
    ap zeros (let e : 32 + k + i ≡ 32 + (k + i) = omega arith in e)
    ∙ zeros-add 32 (k + i)
    ∙ ap (λ l. zeros 32 ++ l) (zeros-add k i)

drop_blank : (k i : ℕ) → drop k (zeros k ++ zeros i) ≡ zeros i
drop_blank k i =
    ap (λ n. drop n (zeros k ++ zeros i)) (sym (length-zeros k))
    ∙ drop-length_append (zeros k) (zeros i)

overwritten : (v : List ℕ) → copy_at 0 (length v) v (zeros (length v)) ≡ v
unfolding copy_at zeros
overwritten v =
    ap (λ l. v ++ l)
      (drop-zeros (length v) (length v)
        ∙ ap zeros (let e : length v - length v ≡ 0 = omega arith in e))
    ∙ append-nil v

module _ (entry : LeafEntry) where
  abbrev pub key_length : ℕ
  key_length = length entry.key

  abbrev pub value_bytes : List ℕ
  value_bytes = value_inline entry.value

  abbrev pub entry_head : List ℕ
  entry_head =
      head entry.revision (value_length entry.value) (value_aux entry.value)
        (value_flags entry.value) key_length

  inline_written :
      copy_at key_length (length value_bytes) value_bytes (entry.key ++ zeros (length value_bytes))
      ≡ entry.key ++ value_bytes
  inline_written =
      ap (λ o. copy_at o (length value_bytes) value_bytes (entry.key ++ zeros (length value_bytes)))
        (let e : key_length ≡ length entry.key + 0 = omega arith in e)
      ∙ copy_at-append entry.key 0 (length value_bytes) value_bytes (zeros (length value_bytes))
      ∙ ap (λ l. entry.key ++ l) (overwritten value_bytes)

  rest_written :
      entry_head
        ++ copy_at key_length
            (length value_bytes)
            value_bytes
            (entry.key ++ drop key_length (zeros key_length ++ zeros (length value_bytes)))
      ≡ entry_head ++ (entry.key ++ value_bytes)
  rest_written =
      ap (λ l. entry_head ++ copy_at key_length (length value_bytes) value_bytes (entry.key ++ l))
        (drop_blank key_length (length value_bytes))
      ∙ ap (λ l. entry_head ++ l) inline_written

  pub record_form : leaf_record_bytes entry ≡ entry_head ++ (entry.key ++ value_bytes)
  unfolding leaf_record_bytes
  record_form =
      ap
        (λ blank_bytes. copy_at (32 + key_length) (length value_bytes) value_bytes (
          written_header entry.revision (value_length entry.value) (value_aux entry.value)
            (value_flags entry.value) key_length entry.key blank_bytes))
        (blank key_length (length value_bytes))
      ∙ ap (copy_at (32 + key_length) (length value_bytes) value_bytes) (
          header_written entry.revision (value_length entry.value) (value_aux entry.value)
            (value_flags entry.value) key_length entry.key
            (zeros key_length ++ zeros (length value_bytes)))
      ∙ ap
          (λ o. copy_at (o + key_length) (length value_bytes) value_bytes (
            entry_head
            ++ (entry.key ++ drop key_length (zeros key_length ++ zeros (length value_bytes)))))
          (sym (
            length-head entry.revision (value_length entry.value) (value_aux entry.value)
              (value_flags entry.value) key_length))
      ∙ copy_at-append entry_head key_length (length value_bytes) value_bytes _
      ∙ rest_written
