-- ===== src/Storage/Btree/Slots/Place.antt =====
-- format.rs: what placing the records leaves in the page body.
use dodb.Core.Error.{Result}
use dodb.Bytes.{copy_at, length-copy_at, copy_at-split}
use dodb.Storage.Btree.Slots.{Record, Slot, place_records}
use dodb.Storage.Btree.Slots.Layout.{blob, slots_of, blob-append, slots_of-append}
use dodb.Prelude.{
  ℕ, ◌+◌, ◌-◌, ◌≤◌, ◌≡◌, refl, sym, ap, ap₂, subst, ◌∙◌, List, [], ◌∷◌, ◌++◌, append_assoc,
  append-nil, arith, ok, ok-injective, >>=-eq-ok, take-append-drop, length, take, drop,
  length-append, take-take, take-append_le, drop-append_at, length-take,
}
use mathlib.Core.List.{reverse, reverse-cons}

blob-snoc :
    (rs : List Record) (bytes : List ℕ) (k : ℕ) → blob (rs ++ ((bytes, k) ∷ [])) ≡ blob rs ++ bytes
unfolding blob
blob-snoc rs bytes k = blob-append rs ((bytes, k) ∷ []) ∙ ap (λ l. blob rs ++ l) (append-nil bytes)

slots_of-snoc :
    (lower : ℕ) (rs : List Record) (bytes : List ℕ) (k : ℕ) {offset : ℕ}
    → lower + length (blob rs) ≡ offset
    → slots_of lower (rs ++ ((bytes, k) ∷ []))
      ≡ slots_of lower rs ++ ((offset, length bytes, k) ∷ [])
unfolding slots_of
slots_of-snoc lower rs bytes k e =
    slots_of-append lower rs ((bytes, k) ∷ [])
    ∙ ap (λ o. slots_of lower rs ++ ((o, length bytes, k) ∷ [])) e

inside_still :
    (bytes : List ℕ) (upper : ℕ) (body : List ℕ)
    → length bytes ≤ upper
    → upper ≤ length body
    → upper - length bytes ≤ length (copy_at (upper - length bytes) (length bytes) bytes body)
inside_still bytes upper body fits inside =
    omega
      (arith, length-copy_at (upper - length bytes) (length bytes) bytes body refl (omega arith))

-- A record written right below `upper`: what is kept in front of it, and what begins with it.
module _ (bytes : List ℕ) (upper : ℕ) (body : List ℕ) (fits : length bytes ≤ upper)
    (inside : upper ≤ length body) where
  written :
      copy_at (upper - length bytes) (length bytes) bytes body
      ≡ take (upper - length bytes) body ++ (bytes ++ drop upper body)
  written =
      let back : upper - length bytes + length bytes ≡ upper = omega arith in
      copy_at-split (upper - length bytes) (length bytes) bytes body (omega arith)
      ∙ ap (λ o. take (upper - length bytes) body ++ (bytes ++ drop o body)) back

  front_length : length (take (upper - length bytes) body) ≡ upper - length bytes
  front_length = omega (arith, length-take (upper - length bytes) body)

  drop_written :
      drop (upper - length bytes) (copy_at (upper - length bytes) (length bytes) bytes body)
      ≡ bytes ++ drop upper body
  drop_written =
      ap (drop (upper - length bytes)) written
      ∙ drop-append_at (upper - length bytes) (take (upper - length bytes) body)
          (bytes ++ drop upper body) (sym front_length)

take_written :
    (bytes : List ℕ) (upper lower : ℕ) (body : List ℕ)
    → length bytes ≤ upper
    → upper ≤ length body
    → lower ≤ upper - length bytes
    → take lower (copy_at (upper - length bytes) (length bytes) bytes body) ≡ take lower body
take_written bytes upper lower body fits inside below =
    ap (take lower) (written bytes upper body fits inside)
    ∙ take-append_le lower (take (upper - length bytes) body) (bytes ++ drop upper body)
        (omega (arith, front_length bytes upper body fits inside))
    ∙ take-take lower (upper - length bytes) body below

module _ {E : Type 0} (encode_record : E → Result Record) where
  -- Each entry is encoded as the record at its position.
  abbrev pub Encodes : List E → List Record → Type 0
  Encodes [] [] = Unit
  Encodes [] (r ∷ rs) = ⊥
  Encodes (e ∷ es) [] = ⊥
  Encodes (e ∷ es) (r ∷ rs) = (encode_record e ≡ ok r) × Encodes es rs

  Encodes-snoc :
      (es : List E) (rs : List Record) (e : E) (r : Record)
      → Encodes es rs
      → encode_record e ≡ ok r
      → Encodes (es ++ (e ∷ [])) (rs ++ (r ∷ []))
  Encodes-snoc [] [] e r h he = (he, tt)
  Encodes-snoc [] (s ∷ rs) e r h he = elim h [ ]
  Encodes-snoc (d ∷ es) [] e r h he = elim h [ ]
  Encodes-snoc (d ∷ es) (s ∷ rs) e r h he = (h.0, Encodes-snoc es rs e r h.1 he)

  -- The outcome of placing `order`, which runs from the last entry to the first.
  pub record Placed (slot_bytes : ℕ) (order : List E) (upper : ℕ) (body : List ℕ)
      (slots : List Slot) (lower : ℕ) (body' : List ℕ) (slots' : List Slot) : Type 0 where
    pub records : List Record
    pub encodes : Encodes (reverse order) records
    pub upper_eq : lower + length (blob records) ≡ upper
    pub room : slot_bytes ≤ lower
    pub body_eq : body' ≡ take lower body ++ (blob records ++ drop upper body)
    pub slots_eq : slots' ≡ slots_of lower records ++ slots

  -- One round of the loop that went well.
  place_step :
      (slot_bytes : ℕ) (entry : E) (entries : List E) (upper : ℕ) (body : List ℕ)
      (slots : List Slot) {out : ℕ × List ℕ × List Slot}
      → place_records encode_record slot_bytes (entry ∷ entries) upper body slots ≡ ok out
      → (r : Record) × (encode_record entry ≡ ok r)
        × (length r.0 ≤ upper)
        × (slot_bytes ≤ upper - length r.0)
        × (place_records encode_record slot_bytes entries
              (upper - length r.0)
              (copy_at (upper - length r.0) (length r.0) r.0 body)
              ((upper - length r.0, length r.0, r.1) ∷ slots)
            ≡ ok out)
  unfolding place_records
  place_step slot_bytes entry entries upper body slots h =
      let (r, encoded, rest) = >>=-eq-ok (encode_record entry) _ h in
      (r, encoded, ground arith, ground arith, ground arith)

  Placed-nil :
      (slot_bytes upper : ℕ) (body : List ℕ) (slots : List Slot)
      → slot_bytes ≤ upper
      → Placed slot_bytes [] upper body slots upper body slots
  unfolding blob slots_of
  Placed-nil slot_bytes upper body slots room = record {
    records = [];
    encodes = tt;
    upper_eq = omega arith;
    room = room;
    body_eq = sym (take-append-drop upper body);
    slots_eq = refl;
  }

  Placed-cons :
      (slot_bytes : ℕ) (entry : E) (order : List E) (bytes : List ℕ) (k upper : ℕ) (body : List ℕ)
      (slots : List Slot) {lower : ℕ} {body' : List ℕ} {slots' : List Slot}
      → encode_record entry ≡ ok (bytes, k)
      → length bytes ≤ upper
      → upper ≤ length body
      → Placed slot_bytes order
          (upper - length bytes)
          (copy_at (upper - length bytes) (length bytes) bytes body)
          ((upper - length bytes, length bytes, k) ∷ slots)
          lower
          body'
          slots'
      → Placed slot_bytes (entry ∷ order) upper body slots lower body' slots'
  Placed-cons slot_bytes entry order bytes k upper body slots {lower} {body'} {slots'} encoded fits
        inside p =
      record {
        records = p.records ++ ((bytes, k) ∷ []);
        encodes =
            subst (λ l. Encodes l (p.records ++ ((bytes, k) ∷ []))) (sym (reverse-cons entry order))
              (Encodes-snoc (reverse order) p.records entry (bytes, k) p.encodes encoded);
        upper_eq = omega (
          arith,
          p.upper_eq,
          ap length (blob-snoc p.records bytes k),
          length-append (blob p.records) bytes,
        );
        room = p.room;
        body_eq =
            p.body_eq
            ∙ ap₂ (λ a b. a ++ (blob p.records ++ b))
                (take_written bytes upper lower body fits inside (omega (arith, p.upper_eq)))
                (drop_written bytes upper body fits inside)
            ∙ ap (λ l. take lower body ++ l)
                (sym (append_assoc (blob p.records) bytes (drop upper body))
                  ∙ ap (λ l. l ++ drop upper body) (sym (blob-snoc p.records bytes k)));
        slots_eq =
            p.slots_eq
            ∙ sym (
                append_assoc (slots_of lower p.records)
                  ((upper - length bytes, length bytes, k) ∷ []) slots)
            ∙ ap (λ l. l ++ slots) (sym (slots_of-snoc lower p.records bytes k p.upper_eq));
      }

  pub place_records-Placed :
      (slot_bytes : ℕ) (order : List E) (upper : ℕ) (body : List ℕ) (slots : List Slot)
      {out : ℕ × List ℕ × List Slot}
      → slot_bytes ≤ upper
      → upper ≤ length body
      → place_records encode_record slot_bytes order upper body slots ≡ ok out
      → Placed slot_bytes order upper body slots out.0 out.1 out.2
  unfolding place_records
  place_records-Placed slot_bytes [] upper body slots {out} room inside h =
      subst (λ (o : ℕ × List ℕ × List Slot). Placed slot_bytes [] upper body slots o.0 o.1 o.2)
        (ok-injective h) (Placed-nil slot_bytes upper body slots room)
  place_records-Placed slot_bytes (entry ∷ order) upper body slots room inside h =
      let ((bytes, k), encoded, fits, room', rest) =
        place_step slot_bytes entry order upper body slots h in
      Placed-cons slot_bytes entry order bytes k upper body slots encoded fits inside (
        place_records-Placed slot_bytes order (upper - length bytes)
          (copy_at (upper - length bytes) (length bytes) bytes body)
          ((upper - length bytes, length bytes, k) ∷ slots) room'
          (inside_still bytes upper body fits inside) rest)
