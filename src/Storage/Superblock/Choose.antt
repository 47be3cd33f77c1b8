-- ===== src/Storage/Superblock/Choose.antt =====
-- superblock.rs: which of the two copies is used.
use dodb.Core.Error.{Error, Result, corruption, unsupported_format}
use dodb.Bytes.{U32}
use dodb.Storage.Superblock.{
  Superblock, SuperblockSlot, SelectedSuperblock, decode_superblock, encode_superblock, select,
  choose_superblock, superblock_checksum,
}
use dodb.Storage.Superblock.RoundTrip.{IsSuperblock, decode_superblock-encode_superblock}
use dodb.Prelude.{ℕ, ◌<◌, ◌≤◌, ◌≡◌, ◌≢◌, ◌⊎◌, inl, inr, refl, sym, ◌∙◌, List, ok, err, arith}

-- The bytes of a slot.
abbrev slot_bytes : SuperblockSlot → List ℕ → List ℕ → List ℕ
slot_bytes SuperblockSlot.a slot_a slot_b = slot_a
slot_bytes SuperblockSlot.b slot_a slot_b = slot_b

-- `r` holds no superblock newer than `generation`.
abbrev pub NotNewer : ℕ → Result Superblock → Type 0
NotNewer generation (ok s) = s.generation ≤ generation
NotNewer generation (err e) = e ≢ unsupported_format

-- The result that stands in a slot.
abbrev slot_result : SuperblockSlot → Result Superblock → Result Superblock → Result Superblock
slot_result SuperblockSlot.a first second = first
slot_result SuperblockSlot.b first second = second

select_sound :
    (first second : Result Superblock) (chosen : SelectedSuperblock)
    → select first second ≡ ok chosen
    → (slot_result chosen.slot first second ≡ ok chosen.superblock)
      × NotNewer chosen.superblock.generation first
      × NotNewer chosen.superblock.generation second
unfolding select
select_sound (ok f) (ok s) chosen h = ground arith
select_sound (ok f) (err e) chosen h = ground arith
select_sound (err e) (ok s) chosen h = ground arith
select_sound (err e) (err d) chosen h = ground arith

slot-decode :
    (crc32c : List ℕ → ℕ) (slot : SuperblockSlot) (slot_a slot_b : List ℕ)
    → slot_result slot (decode_superblock crc32c slot_a) (decode_superblock crc32c slot_b)
      ≡ decode_superblock crc32c (slot_bytes slot slot_a slot_b)
slot-decode crc32c SuperblockSlot.a slot_a slot_b = refl
slot-decode crc32c SuperblockSlot.b slot_a slot_b = refl

-- If a superblock is chosen, it is what the bytes of the chosen slot decode to, no slot decodes to
-- a newer generation, and no slot is of an unsupported format.
pub choose_superblock_sound :
    (crc32c : List ℕ → ℕ) (slot_a slot_b : List ℕ) (chosen : SelectedSuperblock)
    → choose_superblock crc32c slot_a slot_b ≡ ok chosen
    → (decode_superblock crc32c (slot_bytes chosen.slot slot_a slot_b) ≡ ok chosen.superblock)
      × NotNewer chosen.superblock.generation (decode_superblock crc32c slot_a)
      × NotNewer chosen.superblock.generation (decode_superblock crc32c slot_b)
unfolding choose_superblock
choose_superblock_sound crc32c slot_a slot_b chosen h =
    let (here, newer_a, newer_b) =
      select_sound (decode_superblock crc32c slot_a) (decode_superblock crc32c slot_b) chosen h in
    (sym (slot-decode crc32c chosen.slot slot_a slot_b) ∙ here, newer_a, newer_b)

-- Why a pair of results has no choice.
abbrev pub NoChoice : Error → Result Superblock → Result Superblock → Type 0
NoChoice e first second =
    (e ≡ unsupported_format)
      × ((first ≡ err unsupported_format) ⊎ (second ≡ err unsupported_format))
    ⊎ (e ≡ corruption)
      × ((d : Error) × (first ≡ err d) × (d ≢ unsupported_format))
      × ((d : Error) × (second ≡ err d) × (d ≢ unsupported_format))

select_fails :
    (first second : Result Superblock) (e : Error)
    → select first second ≡ err e
    → NoChoice e first second
unfolding select
select_fails (ok f) (ok s) e h = absurd (ground arith)
select_fails (ok f) (err unsupported_format) e h = inl (cc, inr refl)
select_fails (ok f) (err d) e h = absurd (ground arith)
select_fails (err unsupported_format) second e h = inl (cc, inl refl)
select_fails (err c) (err unsupported_format) e h = inl (cc, inr refl)
select_fails (err c) (ok s) e h = absurd (ground arith)
select_fails (err c) (err d) e h = inr (cc, (c, refl, λ p. cc), (d, refl, λ p. cc))

-- If no superblock is chosen, either the error is an unsupported format and one of the slots has
-- it, or the error is corruption and both slots fail to decode with other errors than an
-- unsupported format.
pub choose_superblock_fails :
    (crc32c : List ℕ → ℕ) (slot_a slot_b : List ℕ) (e : Error)
    → choose_superblock crc32c slot_a slot_b ≡ err e
    → NoChoice e (decode_superblock crc32c slot_a) (decode_superblock crc32c slot_b)
unfolding choose_superblock
choose_superblock_fails crc32c slot_a slot_b e h = select_fails _ _ e h

module _ (crc32c : List ℕ → ℕ) (crc_u32 : (bytes : List ℕ) → crc32c bytes < U32) where
  -- If the checksum function returns 32-bit values, both superblocks are in range and encoded, and
  -- the one in slot B has the greater generation, slot B is chosen, with the contents that were
  -- written and the checksum.
  pub choose_superblock_next :
      (old new : Superblock) (slot_a slot_b : List ℕ)
      → IsSuperblock old
      → IsSuperblock new
      → encode_superblock crc32c old ≡ ok slot_a
      → encode_superblock crc32c new ≡ ok slot_b
      → old.generation < new.generation
      → choose_superblock crc32c slot_a slot_b
        ≡ ok (record {
          slot = SuperblockSlot.b;
          superblock = record new { checksum = superblock_checksum crc32c slot_b };
        })
  unfolding choose_superblock select
  choose_superblock_next old new slot_a slot_b is_old is_new wrote_a wrote_b newer =
      rw
        (
          decode_superblock-encode_superblock crc32c old slot_a crc_u32 is_old wrote_a,
          decode_superblock-encode_superblock crc32c new slot_b crc_u32 is_new wrote_b,
        )
        (ground arith)
