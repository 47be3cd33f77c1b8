-- ===== src/Storage/Btree/Slots/Page.antt =====
-- format.rs: a whole slotted page, from its header to its last record.
use dodb.Core.Error.{Result}
use dodb.Bytes.{slice, copy_at, zeros, le_bytes, all_zero, zeros-add, take-zeros_le}
use dodb.Storage.Btree.Slots.{Record, Slot, write_slots}
use dodb.Storage.Btree.Slots.Layout.{blob, table, slots_of, write_slots-table}
use dodb.Storage.Btree.Slots.Place.{Encodes, Placed}
use dodb.Prelude.{
  ℕ, suc, ◌+◌, ◌-◌, ◌*◌, ◌≤◌, ◌≡◌, refl, sym, ap, ap₂, subst, ◌∙◌, List, [], ◌∷◌, ◌++◌, append-nil,
  append_assoc, arith, length, take, drop, take-length_add, true,
}
use mathlib.Core.List.{reverse, reverse-reverse}

-- The header fields that both kinds of page share; `magic` is of four bytes, `word` is the next
-- leaf or the leftmost child.
module _ (m0 m1 m2 m3 count slot_end word : ℕ) where
  abbrev pub page_start : List ℕ
  page_start = copy_at 12 8 (le_bytes 8 word) (
      copy_at 8 2 (le_bytes 2 slot_end) (
        copy_at 6 2 (le_bytes 2 count)
          (copy_at 4 2 (le_bytes 2 1) (copy_at 0 4 (m0 ∷ m1 ∷ m2 ∷ m3 ∷ []) (zeros 4064)))))

  unfoldable pub header : ℕ → List ℕ
  header upper =
      (m0 ∷ m1 ∷ m2 ∷ m3 ∷ [])
      ++ (le_bytes 2 1
          ++ (le_bytes 2 count
              ++ (le_bytes 2 slot_end ++ (le_bytes 2 upper ++ (le_bytes 8 word ++ zeros 12)))))

  pub length-header : (upper : ℕ) → length (header upper) ≡ 32
  unfolding header le_bytes zeros
  length-header upper = refl

  page_start-header : page_start ≡ header 0 ++ zeros 4032
  unfolding header copy_at le_bytes zeros
  page_start-header = refl

  copy_at-header :
      (upper : ℕ) (rest : List ℕ)
      → copy_at 10 2 (le_bytes 2 upper) (header 0 ++ rest) ≡ header upper ++ rest
  unfolding header copy_at le_bytes zeros
  copy_at-header upper rest = refl

  -- The decoder's view of the header.
  pub record Header (upper : ℕ) (page : List ℕ) : Type 0 where
    pub magic : slice 0 4 page ≡ m0 ∷ m1 ∷ m2 ∷ m3 ∷ []
    pub version : slice 4 2 page ≡ le_bytes 2 1
    pub count_word : slice 6 2 page ≡ le_bytes 2 count
    pub slot_end_word : slice 8 2 page ≡ le_bytes 2 slot_end
    pub upper_word : slice 10 2 page ≡ le_bytes 2 upper
    pub link_word : slice 12 8 page ≡ le_bytes 8 word
    pub reserved : all_zero (slice 20 12 page) ≡ true

  pub Header-header : (upper : ℕ) (rest : List ℕ) → Header upper (header upper ++ rest)
  unfolding header le_bytes zeros slice
  Header-header upper rest = record {
    magic = refl;
    version = refl;
    count_word = refl;
    slot_end_word = refl;
    upper_word = refl;
    link_word = refl;
    reserved = refl;
  }

  take-page_start :
      (upper : ℕ)
      → 32 ≤ upper
      → upper ≤ 4064
      → take upper page_start ≡ header 0 ++ zeros (upper - 32)
  take-page_start upper low high =
      ap (take upper) page_start-header
      ∙ ap (λ u. take u (header 0 ++ zeros 4032))
          (let e : upper ≡ length (header 0) + (upper - 32) = omega (arith, length-header 0) in e)
      ∙ take-length_add (header 0) (zeros 4032) (upper - 32)
      ∙ ap (λ l. header 0 ++ l) (take-zeros_le (upper - 32) 4032 (omega arith))

  pub length-page_start : length page_start ≡ 4064
  unfolding copy_at le_bytes zeros
  length-page_start = refl

-- A page made of these records.
module _ (m0 m1 m2 m3 word : ℕ) where
  unfoldable pub laid_out : List Record → ℕ → List ℕ
  laid_out rs upper =
      let slot_end = 32 + length rs * 8 in
      header m0 m1 m2 m3 (length rs) slot_end word upper
      ++ (table upper rs ++ (zeros (upper - slot_end) ++ ([] ++ (blob rs ++ []))))

  module _ {E : Type 0} (encode_record : E → Result Record) where
    Encodes-length :
        (es : List E) (rs : List Record) → Encodes encode_record es rs → length rs ≡ length es
    Encodes-length [] [] h = refl
    Encodes-length [] (r ∷ rs) h = elim h [ ]
    Encodes-length (e ∷ es) [] h = elim h [ ]
    Encodes-length (e ∷ es) (r ∷ rs) h = ap suc (Encodes-length es rs h.1)

    -- What `encode_leaf` and `encode_internal` return.
    pub record LaidOut (es : List E) (page : List ℕ) : Type 0 where
      pub records : List Record
      pub upper : ℕ
      pub encodes : Encodes encode_record es records
      pub upper_eq : upper + length (blob records) ≡ 4064
      pub room : 32 + length records * 8 ≤ upper
      pub page_eq : page ≡ laid_out records upper

    module _ (es : List E) (out : ℕ × List ℕ × List Slot) where
      abbrev slot_bytes : ℕ
      slot_bytes = 32 + length es * 8

      abbrev start : List ℕ
      start = page_start m0 m1 m2 m3 (length es) slot_bytes word

      module _
          (p : Placed encode_record slot_bytes (reverse es) 4064 start [] out.0 out.1 out.2) where
        encodes : Encodes encode_record es p.records
        encodes = subst (λ l. Encodes encode_record l p.records) (reverse-reverse es) p.encodes

        same_length : length p.records ≡ length es
        same_length = Encodes-length es p.records encodes

        low : 32 ≤ out.0
        low = omega (arith, p.room)

        high : out.0 ≤ 4064
        high = omega (arith, p.upper_eq)

        space : zeros (out.0 - 32) ≡ zeros (length p.records * 8) ++ zeros (out.0 - slot_bytes)
        space =
            ap zeros (
              let e : out.0 - 32 ≡ length p.records * 8 + (out.0 - slot_bytes) =
                omega (arith, p.room, same_length) in
              e)
            ∙ zeros-add (length p.records * 8) (out.0 - slot_bytes)

        no_tail : drop 4064 start ≡ []
        unfolding copy_at le_bytes zeros
        no_tail = refl

        abbrev empty_header : List ℕ
        empty_header = header m0 m1 m2 m3 (length es) slot_bytes word 0

        body_eq :
            out.1
            ≡ empty_header
              ++ (zeros (length p.records * 8) ++ (zeros (out.0 - slot_bytes) ++ blob p.records))
        body_eq =
            p.body_eq
            ∙ ap₂ (λ a b. a ++ (blob p.records ++ b))
                (take-page_start m0 m1 m2 m3 (length es) slot_bytes word out.0 low high
                  ∙ ap (λ l. empty_header ++ l) space)
                no_tail
            ∙ ap
                (λ l.
                  (empty_header ++ (zeros (length p.records * 8) ++ zeros (out.0 - slot_bytes)))
                  ++ l)
                (append-nil (blob p.records))
            ∙ append_assoc empty_header (zeros (length p.records * 8) ++ zeros (out.0 - slot_bytes))
                (blob p.records)
            ∙ ap (λ l. empty_header ++ l)
                (append_assoc (zeros (length p.records * 8)) (zeros (out.0 - slot_bytes))
                  (blob p.records))

        finished :
            write_slots 32 out.2 (copy_at 10 2 (le_bytes 2 out.0) out.1) ≡ laid_out p.records out.0
        unfolding laid_out
        finished =
            ap₂ (λ slots body. write_slots 32 slots (copy_at 10 2 (le_bytes 2 out.0) body))
              (p.slots_eq ∙ append-nil (slots_of out.0 p.records)) body_eq
            ∙ ap (write_slots 32 (slots_of out.0 p.records))
                (copy_at-header m0 m1 m2 m3 (length es) slot_bytes word out.0 _)
            ∙ write_slots-table p.records (header m0 m1 m2 m3 (length es) slot_bytes word out.0)
                (zeros (out.0 - slot_bytes) ++ blob p.records) 32 out.0
                (sym (length-header m0 m1 m2 m3 (length es) slot_bytes word out.0))
            ∙ ap
                (λ n.
                  header m0 m1 m2 m3 n (32 + n * 8) word out.0
                  ++ (table out.0 p.records ++ (zeros (out.0 - (32 + n * 8)) ++ blob p.records)))
                (sym same_length)
            ∙ ap
                (λ l.
                  header m0 m1 m2 m3 (length p.records) (32 + length p.records * 8) word out.0
                  ++ (table out.0 p.records ++ (zeros (out.0 - (32 + length p.records * 8)) ++ l)))
                (sym (append-nil (blob p.records)))

        pub LaidOut-placed :
            LaidOut es (write_slots 32 out.2 (copy_at 10 2 (le_bytes 2 out.0) out.1))
        LaidOut-placed = record {
          records = p.records;
          upper = out.0;
          encodes = encodes;
          upper_eq = p.upper_eq;
          room = omega (arith, p.room, same_length);
          page_eq = finished;
        }
