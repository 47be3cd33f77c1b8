-- ===== src/Storage/Btree/Slots/Decode.antt =====
-- format.rs: what the decoders find on a slotted page.
use dodb.Core.Error.{Result}
use dodb.Bytes.{zeros, length-zeros}
use dodb.Storage.Btree.Slots.{Record, read_slots, validate_slot_region, ensure_non_overlapping}
use dodb.Storage.Btree.Slots.Layout.{blob, table, ranges_of, length-table}
use dodb.Storage.Btree.Slots.Place.{Encodes}
use dodb.Storage.Btree.Slots.Read.{IsRecord, read_slots-Encodes, ensure_non_overlapping-ranges_of}
use dodb.Storage.Btree.Slots.Page.{Header, Header-header, header, length-header, laid_out, LaidOut}
use dodb.Prelude.{
  ℕ, suc, ◌+◌, ◌-◌, ◌*◌, ◌≡◌, sym, ap, subst, ◌∙◌, List, [], ◌∷◌, ◌++◌, arith, ok, length,
  length-append, All,
}

module _ (m0 m1 m2 m3 word : ℕ) {E : Type 0} (encode_record : E → Result Record) where
  module _ (es : List E) (page : List ℕ) (l : LaidOut m0 m1 m2 m3 word encode_record es page) where
    abbrev slot_end : ℕ
    slot_end = 32 + length l.records * 8

    length-laid_out : length (laid_out m0 m1 m2 m3 word l.records l.upper) ≡ 4064
    unfolding laid_out
    length-laid_out =
        let front = header m0 m1 m2 m3 (length l.records) slot_end word l.upper in
        let gap = zeros (l.upper - slot_end) in
        omega (
          arith,
          length-append front (table l.upper l.records ++ (gap ++ ([] ++ (blob l.records ++ [])))),
          length-append (table l.upper l.records) (gap ++ ([] ++ (blob l.records ++ []))),
          length-append gap (blob l.records ++ []),
          length-append (blob l.records) [],
          length-header m0 m1 m2 m3 (length l.records) slot_end word l.upper,
          length-table l.upper l.records,
          length-zeros (l.upper - slot_end),
          l.upper_eq,
          l.room,
        )

    pub length-page : length page ≡ 4064
    length-page = ap length l.page_eq ∙ length-laid_out

    pub page-Header : Header m0 m1 m2 m3 (length l.records) slot_end word l.upper page
    unfolding laid_out
    page-Header =
        subst (Header m0 m1 m2 m3 (length l.records) slot_end word l.upper) (sym l.page_eq)
          (Header-header m0 m1 m2 m3 (length l.records) slot_end word l.upper _)

    pub region : validate_slot_region (length l.records) slot_end l.upper 32 4064 ≡ ok tt
    unfolding validate_slot_region
    region = ground (arith, l.room, l.upper_eq)

    module _ (IsEntry : E → Type 0) (m : ℕ) (decode_record : List ℕ → ℕ → Result E)
        (decodes : (e : E) (r : Record)
          → IsEntry e
          → encode_record e ≡ ok r
          → decode_record r.0 r.1 ≡ ok e)
        (sized : (e : E) (r : Record) → encode_record e ≡ ok r → IsRecord (suc m) r) where
      All-IsRecord :
          (ds : List E) (rs : List Record) → Encodes encode_record ds rs → All (IsRecord (suc m)) rs
      All-IsRecord ds [] h = tt
      All-IsRecord [] (r ∷ rs) h = elim h [ ]
      All-IsRecord (d ∷ ds) (r ∷ rs) h = (sized d r h.0, All-IsRecord ds rs h.1)

      pub disjoint : ensure_non_overlapping (ranges_of l.upper l.records) ≡ ok tt
      disjoint =
          ensure_non_overlapping-ranges_of m l.upper l.records (All-IsRecord es l.records l.encodes)

      pub read :
          All IsEntry es
          → read_slots (suc m) decode_record l.upper (length l.records) 32 page
            ≡ ok (es, ranges_of l.upper l.records)
      unfolding laid_out
      read is_e =
          read_slots-Encodes IsEntry encode_record m decode_record decodes es l.records
            (header m0 m1 m2 m3 (length l.records) slot_end word l.upper)
            (zeros (l.upper - slot_end)) [] [] page 32 l.upper l.upper is_e l.encodes
            (All-IsRecord es l.records l.encodes) l.page_eq
            (sym (length-header m0 m1 m2 m3 (length l.records) slot_end word l.upper))
            (omega (
              arith,
              l.room,
              length-zeros (l.upper - slot_end),
              length-header m0 m1 m2 m3 (length l.records) slot_end word l.upper,
            ))
            (omega (arith, length-page)) (omega arith)
