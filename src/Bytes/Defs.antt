-- ===== src/Bytes/Defs.antt =====
-- The operations on byte buffers.
use dodb.Prelude.{
  ℕ, zero, suc, ◌+◌, ◌*◌, ◌/◌, ◌%◌, ◌^◌, ◌<◌, Bool, true, false, ◌&&◌, List, [], ◌∷◌, ◌++◌, take,
  drop, ◌==◌,
}

abbrev pub IsByte : ℕ → Type 0
IsByte b = b < 256

-- The ranges of the machine integers.
abbrev pub U8 : ℕ
U8 = 2 ^ 8

abbrev pub U16 : ℕ
U16 = 2 ^ 16

abbrev pub U32 : ℕ
U32 = 2 ^ 32

abbrev pub U64 : ℕ
U64 = 2 ^ 64

-- `bytes[offset..offset + n]`; out of range, what there is of it.
unfoldable pub slice : ℕ → ℕ → List ℕ → List ℕ
slice offset n bytes = take n (drop offset bytes)

-- `dest[offset..offset + n].copy_from_slice(source)`, where `source` has `n` bytes.
unfoldable pub copy_at : ℕ → ℕ → List ℕ → List ℕ → List ℕ
copy_at zero n source dest = source ++ drop n dest
copy_at (suc offset) n source [] = []
copy_at (suc offset) n source (d ∷ dest) = d ∷ copy_at offset n source dest

-- `[0u8; n]`
unfoldable pub zeros : ℕ → List ℕ
zeros zero = []
zeros (suc n) = 0 ∷ zeros n

-- `value.to_le_bytes()` of an integer of `n` bytes, and `from_le_bytes`.
unfoldable pub le_bytes : ℕ → ℕ → List ℕ
le_bytes zero value = []
le_bytes (suc n) value = value % 256 ∷ le_bytes n (value / 256)

unfoldable pub from_le : List ℕ → ℕ
from_le [] = 0
from_le (b ∷ bytes) = b + 256 * from_le bytes

-- `u16::from_le_bytes(bytes[offset..offset + 2])`, and so for the other widths.
abbrev pub u16_at : ℕ → List ℕ → ℕ
u16_at offset bytes = from_le (slice offset 2 bytes)

abbrev pub u32_at : ℕ → List ℕ → ℕ
u32_at offset bytes = from_le (slice offset 4 bytes)

abbrev pub u64_at : ℕ → List ℕ → ℕ
u64_at offset bytes = from_le (slice offset 8 bytes)

-- `bytes[offset]`
abbrev pub byte_at : ℕ → List ℕ → ℕ
byte_at offset bytes = from_le (slice offset 1 bytes)

abbrev pub eq_bytes : List ℕ → List ℕ → Bool
eq_bytes [] [] = true
eq_bytes [] (y ∷ ys) = false
eq_bytes (x ∷ xs) [] = false
eq_bytes (x ∷ xs) (y ∷ ys) = x == y && eq_bytes xs ys

-- `bytes.iter().any(|byte| *byte != 0)` is its negation.
abbrev pub all_zero : List ℕ → Bool
all_zero [] = true
all_zero (x ∷ xs) = x == 0 && all_zero xs
