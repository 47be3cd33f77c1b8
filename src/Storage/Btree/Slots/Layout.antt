-- ===== src/Storage/Btree/Slots/Layout.antt =====
-- format.rs: the slot table, the records and the ranges of a slotted page, as plain recursions.
use dodb.Bytes.{le_bytes, copy_at, zeros, copy_at-append, zeros-add}
use dodb.Storage.Btree.Slots.{Record, Slot, write_slots}
use dodb.Prelude.{
  ℕ, suc, ◌+◌, ◌*◌, ◌≡◌, refl, sym, ap, ◌∙◌, List, [], ◌∷◌, ◌++◌, append_assoc, arith, length,
  length-append,
}

-- The records one after the other.
unfoldable pub blob : List Record → List ℕ
blob [] = []
blob ((bytes, k) ∷ rs) = bytes ++ blob rs

unfoldable pub slots_of : ℕ → List Record → List Slot
slots_of offset [] = []
slots_of offset ((bytes, k) ∷ rs) = (offset, length bytes, k) ∷ slots_of (offset + length bytes) rs

-- One slot on the page.
unfoldable pub row : ℕ → ℕ → ℕ → List ℕ
row offset size k = le_bytes 2 offset ++ (le_bytes 2 size ++ (le_bytes 2 k ++ (0 ∷ 0 ∷ [])))

unfoldable pub table : ℕ → List Record → List ℕ
table offset [] = []
table offset ((bytes, k) ∷ rs) = row offset (length bytes) k ++ table (offset + length bytes) rs

unfoldable pub ranges_of : ℕ → List Record → List (ℕ × ℕ)
ranges_of offset [] = []
ranges_of offset ((bytes, k) ∷ rs) =
    (offset, offset + length bytes) ∷ ranges_of (offset + length bytes) rs

pub length-row : (offset size k : ℕ) → length (row offset size k) ≡ 8
unfolding row le_bytes
length-row offset size k = refl

pub length-table : (offset : ℕ) (rs : List Record) → length (table offset rs) ≡ length rs * 8
unfolding table
length-table offset [] = refl
length-table offset ((bytes, k) ∷ rs) = omega (
  arith,
  length-append (row offset (length bytes) k) (table (offset + length bytes) rs),
  length-row offset (length bytes) k,
  length-table (offset + length bytes) rs,
)

pub blob-append : (rs ss : List Record) → blob (rs ++ ss) ≡ blob rs ++ blob ss
unfolding blob
blob-append [] ss = refl
blob-append ((bytes, k) ∷ rs) ss =
    ap (λ l. bytes ++ l) (blob-append rs ss) ∙ sym (append_assoc bytes (blob rs) (blob ss))

pub slots_of-append :
    (offset : ℕ) (rs ss : List Record)
    → slots_of offset (rs ++ ss) ≡ slots_of offset rs ++ slots_of (offset + length (blob rs)) ss
unfolding slots_of blob
slots_of-append offset [] ss = let e : offset + 0 ≡ offset = omega arith in rw e
slots_of-append offset ((bytes, k) ∷ rs) ss =
    let e : offset + length (bytes ++ blob rs) ≡ offset + length bytes + length (blob rs) =
      omega (arith, length-append bytes (blob rs)) in
    rw e (ap (λ l. (offset, length bytes, k) ∷ l) (slots_of-append (offset + length bytes) rs ss))

write_row :
    (front rest : List ℕ) (slot offset size k : ℕ)
    → slot ≡ length front
    → copy_at (slot + 4) 2 (le_bytes 2 k) (
        copy_at
          (slot + 2)
          2
          (le_bytes 2 size)
          (copy_at slot 2 (le_bytes 2 offset) (front ++ (zeros 8 ++ rest))))
      ≡ (front ++ row offset size k) ++ rest
write_row front rest slot offset size k e =
    ap
      (λ o. copy_at (slot + 4) 2 (le_bytes 2 k) (
        copy_at (slot + 2) 2 (le_bytes 2 size)
          (copy_at o 2 (le_bytes 2 offset) (front ++ (zeros 8 ++ rest)))))
      (let at_front : slot ≡ length front + 0 = omega arith in at_front)
    ∙ rw (e, copy_at-append front 0 2 (le_bytes 2 offset) (zeros 8 ++ rest))
        (rw (copy_at-append front 2 2 (le_bytes 2 size)) (
          rw (copy_at-append front 4 2 (le_bytes 2 k))
            (unfold copy_at zeros le_bytes row in sym (append_assoc front _ rest))))

-- The slot array is filled in over the zeros behind the header.
pub write_slots-table :
    (rs : List Record) (front rest : List ℕ) (slot offset : ℕ)
    → slot ≡ length front
    → write_slots slot (slots_of offset rs) (front ++ (zeros (length rs * 8) ++ rest))
      ≡ front ++ (table offset rs ++ rest)
unfolding write_slots slots_of table
write_slots-table [] front rest slot offset e = unfold zeros in refl
write_slots-table ((bytes, k) ∷ rs) front rest slot offset e =
    ap
      (λ body. write_slots (slot + 8) (slots_of (offset + length bytes) rs) (
        copy_at (slot + 4) 2 (le_bytes 2 k) (
          copy_at (slot + 2) 2 (le_bytes 2 (length bytes))
            (copy_at slot 2 (le_bytes 2 offset) (front ++ body)))))
      (ap (λ z. z ++ rest) first ∙ append_assoc (zeros 8) (zeros (length rs * 8)) rest)
    ∙ ap (write_slots (slot + 8) (slots_of (offset + length bytes) rs))
        (write_row front (zeros (length rs * 8) ++ rest) slot offset (length bytes) k e)
    ∙ write_slots-table rs (front ++ row offset (length bytes) k) rest (slot + 8)
        (offset + length bytes)
        (omega (
          arith,
          length-append front (row offset (length bytes) k),
          length-row offset (length bytes) k,
        ))
    ∙ append_assoc front (row offset (length bytes) k) (table (offset + length bytes) rs ++ rest)
    ∙ ap (λ l. front ++ l)
        (sym (append_assoc (row offset (length bytes) k) (table (offset + length bytes) rs) rest))
  where
    first : zeros (suc (length rs) * 8) ≡ zeros 8 ++ zeros (length rs * 8)
    first =
        ap zeros (let e8 : suc (length rs) * 8 ≡ 8 + length rs * 8 = omega arith in e8)
        ∙ zeros-add 8 (length rs * 8)
