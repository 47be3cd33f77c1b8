-- ===== src/Storage/Btree/Slots/Read.antt =====
-- format.rs: reading the slots of a page that was laid out from records.
use dodb.Core.Error.{Result}
use dodb.Bytes.{slice, le_bytes, slice-append, slice-part, U16}
use dodb.Storage.Btree.Entries.Laws.{read_word-le_bytes}
use dodb.Storage.Btree.Entries.{read_word}
use dodb.Storage.Btree.Slots.{
  Record, insert_range, sort_ranges, check_windows, ensure_non_overlapping, read_slots,
}
use dodb.Storage.Btree.Slots.Layout.{blob, row, table, ranges_of, length-row, length-table}
use dodb.Storage.Btree.Slots.Place.{Encodes}
use dodb.Prelude.{
  ℕ, suc, ◌+◌, ◌*◌, ◌≤◌, ◌<◌, ◌≡◌, refl, sym, ap, ◌∙◌, List, [], ◌∷◌, ◌++◌, append_assoc, arith, ok,
  length, length-append, All,
}

-- The ranges of records that stand one behind the other are in order already, and do not overlap.
insert_range-ranges_of :
    (offset size : ℕ) (rs : List Record)
    → 0 < size
    → insert_range (offset, offset + size) (ranges_of (offset + size) rs)
      ≡ (offset, offset + size) ∷ ranges_of (offset + size) rs
unfolding insert_range ranges_of
insert_range-ranges_of offset size [] h = refl
insert_range-ranges_of offset size ((bytes, k) ∷ rs) h = ground arith

abbrev pub IsRecord : ℕ → Record → Type 0
IsRecord min_length r = (min_length ≤ length r.0) × (r.1 < U16)

sort_ranges-ranges_of :
    (m offset : ℕ) (rs : List Record)
    → All (IsRecord (suc m)) rs
    → sort_ranges (ranges_of offset rs) ≡ ranges_of offset rs
unfolding sort_ranges ranges_of
sort_ranges-ranges_of m offset [] h = refl
sort_ranges-ranges_of m offset ((bytes, k) ∷ rs) h =
    ap (insert_range (offset, offset + length bytes))
      (sort_ranges-ranges_of m (offset + length bytes) rs h.1)
    ∙ insert_range-ranges_of offset (length bytes) rs (omega arith)

check_windows-ranges_of :
    (offset : ℕ) (rs : List Record) → check_windows (ranges_of offset rs) ≡ ok tt
unfolding check_windows ranges_of
check_windows-ranges_of offset [] = refl
check_windows-ranges_of offset ((bytes, k) ∷ []) = refl
check_windows-ranges_of offset ((bytes, k) ∷ (next, l) ∷ rs) =
    ground (arith, check_windows-ranges_of (offset + length bytes) ((next, l) ∷ rs))

pub ensure_non_overlapping-ranges_of :
    (m offset : ℕ) (rs : List Record)
    → All (IsRecord (suc m)) rs
    → ensure_non_overlapping (ranges_of offset rs) ≡ ok tt
unfolding ensure_non_overlapping
ensure_non_overlapping-ranges_of m offset rs h =
    ap check_windows (sort_ranges-ranges_of m offset rs h) ∙ check_windows-ranges_of offset rs

-- The words of a row.
module _ (front rest : List ℕ) (slot offset size k : ℕ) (at : slot ≡ length front) where
  body : List ℕ
  body = front ++ (row offset size k ++ rest)

  word_at :
      (skip : ℕ) (bytes : List ℕ)
      → slice skip 2 (row offset size k ++ rest) ≡ bytes
      → slice (slot + skip) 2 body ≡ bytes
  unfolding body
  word_at skip bytes e = rw at (slice-append front skip 2 (row offset size k ++ rest) ∙ e)

  offset_word : slice slot 2 body ≡ le_bytes 2 offset
  offset_word =
      ap (λ o. slice o 2 body) (let e : slot ≡ slot + 0 = omega arith in e)
      ∙ word_at 0 (le_bytes 2 offset) (unfold row slice le_bytes in refl)

  size_word : slice (slot + 2) 2 body ≡ le_bytes 2 size
  size_word = word_at 2 (le_bytes 2 size) (unfold row slice le_bytes in refl)

  key_word : slice (slot + 4) 2 body ≡ le_bytes 2 k
  key_word = word_at 4 (le_bytes 2 k) (unfold row slice le_bytes in refl)

-- The first record of a page that is laid out from `(bytes, k) ∷ rs`.
module _ (bytes : List ℕ) (k : ℕ) (rs : List Record) (front gap done tail page : List ℕ)
    (offset : ℕ)
    (shape : page
      ≡ front
        ++ (table offset ((bytes, k) ∷ rs) ++ (gap ++ (done ++ (blob ((bytes, k) ∷ rs) ++ tail)))))
    (off : offset ≡ length front + suc (length rs) * 8 + length gap + length done) where
  this_row : List ℕ
  this_row = row offset (length bytes) k

  next_table : List ℕ
  next_table = table (offset + length bytes) rs

  behind : List ℕ
  behind = blob rs ++ tail

  -- The row apart from the rest.
  row_shape : page ≡ front ++ (this_row ++ (next_table ++ (gap ++ (done ++ (bytes ++ behind)))))
  unfolding table blob this_row next_table behind
  row_shape =
      shape
      ∙ ap (λ l. front ++ l)
          (append_assoc this_row next_table (gap ++ (done ++ ((bytes ++ blob rs) ++ tail)))
            ∙ ap (λ l. this_row ++ (next_table ++ (gap ++ (done ++ l))))
                (append_assoc bytes (blob rs) tail))

  -- The page as it stands when the row has been read.
  next_shape : page ≡ (front ++ this_row) ++ (next_table ++ (gap ++ ((done ++ bytes) ++ behind)))
  next_shape =
      row_shape
      ∙ sym (append_assoc front this_row (next_table ++ (gap ++ (done ++ (bytes ++ behind)))))
      ∙ ap (λ l. (front ++ this_row) ++ (next_table ++ (gap ++ l)))
          (sym (append_assoc done bytes behind))

  before : List ℕ
  before = front ++ (this_row ++ (next_table ++ (gap ++ done)))

  record_shape : page ≡ before ++ (bytes ++ behind)
  unfolding before
  record_shape =
      row_shape
      ∙ ap (λ l. front ++ (this_row ++ (next_table ++ l)))
          (sym (append_assoc gap done (bytes ++ behind)))
      ∙ ap (λ l. front ++ (this_row ++ l))
          (sym (append_assoc next_table (gap ++ done) (bytes ++ behind)))
      ∙ ap (λ l. front ++ l)
          (sym (append_assoc this_row (next_table ++ (gap ++ done)) (bytes ++ behind)))
      ∙ sym (append_assoc front (this_row ++ (next_table ++ (gap ++ done))) (bytes ++ behind))

  length-before : length before ≡ offset
  unfolding before this_row next_table
  length-before = omega (
    arith,
    off,
    length-append front (this_row ++ (next_table ++ (gap ++ done))),
    length-append this_row (next_table ++ (gap ++ done)),
    length-append next_table (gap ++ done),
    length-append gap done,
    length-row offset (length bytes) k,
    length-table (offset + length bytes) rs,
  )

  record_slice : slice offset (length bytes) page ≡ bytes
  record_slice =
      ap (slice offset (length bytes)) record_shape
      ∙ slice-part before bytes behind (sym length-before)

  record_end : offset + length bytes ≤ length page
  record_end = omega (
    arith,
    ap length record_shape,
    length-append before (bytes ++ behind),
    length-append bytes behind,
    length-before,
  )

  slot_end : length front + 8 ≤ offset
  slot_end = omega (arith, off)

  module _ (slot : ℕ) (at : slot ≡ length front) (small : length page < U16) where
    read_offset : read_word 2 page slot ≡ ok offset
    unfolding body this_row
    read_offset =
        read_word-le_bytes 2 page slot offset (omega (arith, at, slot_end, record_end))
          (ap (slice slot 2) row_shape
            ∙ offset_word front (next_table ++ (gap ++ (done ++ (bytes ++ behind)))) slot offset
                (length bytes) k at)
          (omega (arith, record_end, small))

    read_size : read_word 2 page (slot + 2) ≡ ok (length bytes)
    unfolding body this_row
    read_size =
        read_word-le_bytes 2 page (slot + 2) (length bytes)
          (omega (arith, at, slot_end, record_end))
          (ap (slice (slot + 2) 2) row_shape
            ∙ size_word front (next_table ++ (gap ++ (done ++ (bytes ++ behind)))) slot offset
                (length bytes) k at)
          (omega (arith, record_end, small))

    read_key : k < U16 → read_word 2 page (slot + 4) ≡ ok k
    unfolding body this_row
    read_key key_u16 =
        read_word-le_bytes 2 page (slot + 4) k (omega (arith, at, slot_end, record_end))
          (ap (slice (slot + 4) 2) row_shape
            ∙ key_word front (next_table ++ (gap ++ (done ++ (bytes ++ behind)))) slot offset
                (length bytes) k at)
          key_u16

next_slot :
    (front : List ℕ) (slot offset size k : ℕ)
    → slot ≡ length front
    → slot + 8 ≡ length (front ++ row offset size k)
next_slot front slot offset size k at =
    omega (arith, length-append front (row offset size k), length-row offset size k)

next_offset :
    (front gap done bytes : List ℕ) (k offset left : ℕ)
    → offset ≡ length front + suc left * 8 + length gap + length done
    → offset + length bytes
      ≡ length (front ++ row offset (length bytes) k)
        + left * 8
        + length gap
        + length (done ++ bytes)
next_offset front gap done bytes k offset left off = omega (
  arith,
  length-append front (row offset (length bytes) k),
  length-row offset (length bytes) k,
  length-append done bytes,
)

module _ {E : Type 0} (IsEntry : E → Type 0) (encode_record : E → Result Record) (m : ℕ)
    (decode_record : List ℕ → ℕ → Result E)
    (decodes : (e : E) (r : Record)
      → IsEntry e
      → encode_record e ≡ ok r
      → decode_record r.0 r.1 ≡ ok e) where
  -- `front` has been read up to the next slot; the records before `rs` are `done`.
  pub read_slots-Encodes :
      (es : List E) (rs : List Record) (front gap done tail body : List ℕ)
      (slot offset records_start : ℕ)
      → All IsEntry es
      → Encodes encode_record es rs
      → All (IsRecord (suc m)) rs
      → body ≡ front ++ (table offset rs ++ (gap ++ (done ++ (blob rs ++ tail))))
      → slot ≡ length front
      → offset ≡ length front + length rs * 8 + length gap + length done
      → length body < U16
      → records_start ≤ offset
      → read_slots (suc m) decode_record records_start (length rs) slot body
        ≡ ok (es, ranges_of offset rs)
  unfolding read_slots ranges_of this_row next_table behind
  read_slots-Encodes [] [] front gap done tail body slot offset start is_e enc is_r shape at off
        small below =
      refl
  read_slots-Encodes [] (r ∷ rs) front gap done tail body slot offset start is_e enc is_r shape at
        off small below =
      elim enc [ ]
  read_slots-Encodes (e ∷ es) [] front gap done tail body slot offset start is_e enc is_r shape at
        off small below =
      elim enc [ ]
  read_slots-Encodes (e ∷ es) ((bytes, k) ∷ rs) front gap done tail body slot offset start is_e enc
        is_r shape at off small below =
      let rest : read_slots (suc m) decode_record start (length rs) (slot + 8) body
          ≡ ok (es, ranges_of (offset + length bytes) rs) =
        read_slots-Encodes es rs (front ++ row offset (length bytes) k) gap (done ++ bytes) tail
          body (slot + 8) (offset + length bytes) start is_e.1 enc.1 is_r.1
          (next_shape bytes k rs front gap done tail body offset shape off)
          (next_slot front slot offset (length bytes) k at)
          (next_offset front gap done bytes k offset (length rs) off) small (omega arith) in
      rw
        (
          read_offset bytes k rs front gap done tail body offset shape off slot at small,
          read_size bytes k rs front gap done tail body offset shape off slot at small,
          read_key bytes k rs front gap done tail body offset shape off slot at small (is_r.0.1),
          record_slice bytes k rs front gap done tail body offset shape off,
          decodes e (bytes, k) is_e.0 enc.0,
          rest,
        )
        (ground (arith, record_end bytes k rs front gap done tail body offset shape off, is_r.0.0))
