-- ===== src/Storage/Superblock/Torn.antt =====
-- superblock.rs: a write of a superblock that stops half-way.
use dodb.Core.Error.{Result, unsupported_format}
use dodb.Bytes.{
  slice, copy_at, zeros, le_bytes, from_le, u16_at, u32_at, U32, from_le-le_bytes, torn_write,
  length-torn_write, slice-torn_write,
}
use dodb.Storage.Superblock.{
  Superblock, SuperblockSlot, SelectedSuperblock, superblock_magic, superblock_checksum,
  superblock_fields, encode_superblock, decode_superblock, select, choose_superblock,
}
use dodb.Storage.Superblock.Choose.{NotNewer}
use dodb.Storage.Superblock.RoundTrip.{
  IsSuperblock, sealed, spelled, spelled_same, encode_superblock-ok,
  decode_superblock-encode_superblock,
}
use dodb.Prelude.{
  ℕ, ◌<◌, ◌≤◌, ◌≡◌, ◌≢◌, ◌⊎◌, Bool-cases, leb, inl, inr, refl, sym, ap, subst, ◌∙◌, List, ok, err,
  length, arith,
}

-- The bytes that are the same in every superblock.
record IsMarked (page : List ℕ) : Type 0 where
  size : length page ≡ 4096
  magic : slice 0 4 page ≡ superblock_magic
  version : slice 4 2 page ≡ le_bytes 2 1
  page_size : slice 54 4 page ≡ le_bytes 4 4096

sealed-IsMarked :
    (crc32c : List ℕ → ℕ) (s : Superblock)
    → s.format_version ≡ 1
    → s.page_size ≡ 4096
    → IsMarked (sealed crc32c (spelled s))
unfolding sealed superblock_fields slice copy_at zeros le_bytes
sealed-IsMarked crc32c s version size = record {
  size = refl;
  magic = refl;
  version = ap (le_bytes 2) version;
  page_size = ap (le_bytes 4) size;
}

encode_superblock-IsMarked :
    (crc32c : List ℕ → ℕ) (s : Superblock) {page : List ℕ}
    → IsSuperblock s
    → encode_superblock crc32c s ≡ ok page
    → IsMarked page
encode_superblock-IsMarked crc32c s v e =
    let (version, size, same) = encode_superblock-ok crc32c s e in
    subst IsMarked same (
      subst (λ t. IsMarked (sealed crc32c t)) (spelled_same s v)
        (sealed-IsMarked crc32c s version size))

torn_write-IsMarked :
    (n : ℕ) (new old : List ℕ) → IsMarked new → IsMarked old → IsMarked (torn_write n new old)
torn_write-IsMarked n new old is_new is_old =
    let same = is_new.size ∙ sym is_old.size in
    record {
      size = length-torn_write n new old same ∙ is_old.size;
      magic = slice-torn_write 0 4 n new old same (is_new.magic ∙ sym is_old.magic) ∙ is_old.magic;
      version =
          slice-torn_write 4 2 n new old same (is_new.version ∙ sym is_old.version)
          ∙ is_old.version;
      page_size =
          slice-torn_write 54 4 n new old same (is_new.page_size ∙ sym is_old.page_size)
          ∙ is_old.page_size;
    }

-- With these bytes in place nothing but the checksum can fail.
decode_superblock-IsMarked :
    (crc32c : List ℕ → ℕ) (page : List ℕ)
    → IsMarked page
    → decode_superblock crc32c page ≢ err unsupported_format
unfolding decode_superblock
decode_superblock-IsMarked crc32c page m h =
    let version : u16_at 4 page ≡ 1 = ap from_le m.version ∙ from_le-le_bytes 2 1 (omega arith) in
    let size : u32_at 54 page ≡ 4096 =
      ap from_le m.page_size ∙ from_le-le_bytes 4 4096 (omega arith) in
    ground (arith, version, size, m.size, m.magic)

-- A superblock is chosen: `kept` if the other slot has no newer one, or what the other slot decodes
-- to if that is not older.
abbrev pub Survives : Superblock → Result Superblock → Result SelectedSuperblock → Type 0
Survives kept other r =
    (chosen : SelectedSuperblock) × (r ≡ ok chosen)
    × ((chosen.superblock ≡ kept) × NotNewer kept.generation other
        ⊎ (other ≡ ok chosen.superblock) × (kept.generation ≤ chosen.superblock.generation))

abbrev from_a : Superblock → SelectedSuperblock
from_a s = record { slot = SuperblockSlot.a; superblock = s }

abbrev from_b : Superblock → SelectedSuperblock
from_b s = record { slot = SuperblockSlot.b; superblock = s }

select_kept_first :
    (kept : Superblock) (other : Result Superblock)
    → other ≢ err unsupported_format
    → Survives kept other (select (ok kept) other)
unfolding select
select_kept_first kept (ok s) h = elim (Bool-cases (leb s.generation kept.generation)) [
  | inl low ↦ (from_a kept, rw low, inl (refl, ground arith))
  | inr high ↦ (from_b s, rw high, inr (refl, ground arith))
]
select_kept_first kept (err unsupported_format) h = absurd (h refl)
select_kept_first kept (err e) h = (_, refl, inl (refl, λ p. cc))

select_kept_second :
    (kept : Superblock) (other : Result Superblock)
    → other ≢ err unsupported_format
    → Survives kept other (select other (ok kept))
unfolding select
select_kept_second kept (ok s) h = elim (Bool-cases (leb kept.generation s.generation)) [
  | inl low ↦ (from_a s, rw low, inr (refl, ground arith))
  | inr high ↦ (from_b kept, rw high, inl (refl, ground arith))
]
select_kept_second kept (err unsupported_format) h = absurd (h refl)
select_kept_second kept (err e) h = (_, refl, inl (refl, λ p. cc))

module _ (crc32c : List ℕ → ℕ) (crc_u32 : (bytes : List ℕ) → crc32c bytes < U32) where
  -- If the checksum function returns 32-bit values, and a slot holds the superblock `kept` while
  -- the first `n` bytes of the other slot, which held the superblock `old`, are overwritten with
  -- those of the superblock `new`, all three in range and encoded, a superblock is chosen whichever
  -- of the slots is which: `kept` with its checksum, if the overwritten slot does not decode to a
  -- newer one, or what the overwritten slot decodes to, if its generation is not smaller than that
  -- of `kept`.
  pub choose_superblock-torn_write :
      (n : ℕ) (kept old new : Superblock) (kept_page old_page new_page : List ℕ)
      → IsSuperblock kept
      → IsSuperblock old
      → IsSuperblock new
      → encode_superblock crc32c kept ≡ ok kept_page
      → encode_superblock crc32c old ≡ ok old_page
      → encode_superblock crc32c new ≡ ok new_page
      → let torn = torn_write n new_page old_page in
        let read = record kept { checksum = superblock_checksum crc32c kept_page } in
        Survives read (decode_superblock crc32c torn) (choose_superblock crc32c kept_page torn)
        × Survives read (decode_superblock crc32c torn) (choose_superblock crc32c torn kept_page)
  unfolding choose_superblock
  choose_superblock-torn_write n kept old new kept_page old_page new_page is_kept is_old is_new
        wrote wrote_old wrote_new =
      let readable = decode_superblock-IsMarked crc32c (torn_write n new_page old_page) (
        torn_write-IsMarked n new_page old_page
          (encode_superblock-IsMarked crc32c new is_new wrote_new)
          (encode_superblock-IsMarked crc32c old is_old wrote_old)) in
      rw (decode_superblock-encode_superblock crc32c kept kept_page crc_u32 is_kept wrote)
        (select_kept_first _ _ readable, select_kept_second _ _ readable)
