-- ===== src/Storage/Superblock/Tests.antt =====
-- The theorems of superblock.rs at concrete inputs, with the sum of the bytes as the checksum.
use dodb.Core.Error.{corruption}
use dodb.Bytes.{zeros, slice, copy_at, le_bytes, from_le, U32, torn_write}
use dodb.Storage.Superblock.{
  Superblock, SuperblockSlot, new_superblock, superblock_checksum, superblock_fields,
  encode_page_id, encode_superblock, decode_superblock, select, choose_superblock,
}
use dodb.Storage.Superblock.RoundTrip.{IsSuperblock, decode_superblock-encode_superblock}
use dodb.Storage.Superblock.Choose.{
  NotNewer, NoChoice, choose_superblock_sound, choose_superblock_fails, choose_superblock_next,
}
use dodb.Storage.Superblock.Torn.{Survives, choose_superblock-torn_write}
use dodb.Prelude.{ℕ, ◌+◌, ◌%◌, ◌<◌, ◌≡◌, refl, List, [], ◌∷◌, some, ok, err, arith}

unfoldable byte_sum : List ℕ → ℕ
byte_sum [] = 0
byte_sum (byte ∷ bytes) = (byte + byte_sum bytes) % U32

byte_sum-u32 : (bytes : List ℕ) → byte_sum bytes < U32
unfolding byte_sum
byte_sum-u32 [] = omega arith
byte_sum-u32 (byte ∷ bytes) = omega arith

abbrev superblock : Superblock
superblock = record (new_superblock 4 (zeros 16) 1 2 3) {
  root_page_id = some 9;
  high_water_page_id = some 12;
  checkpoint_lsn = 77;
}

superblock-IsSuperblock : IsSuperblock superblock
unfolding new_superblock zeros
superblock-IsSuperblock = record {
  generation_u64 = omega arith;
  uuid_size = refl;
  tenant_u64 = omega arith;
  shard_u64 = omega arith;
  epoch_u64 = omega arith;
  root_ref = omega arith;
  free_ref = tt;
  high_water_ref = omega arith;
  lsn_u64 = omega arith;
}

abbrev next_superblock : Superblock
next_superblock = record superblock { generation = 5; checkpoint_lsn = 90 }

next_superblock-IsSuperblock : IsSuperblock next_superblock
unfolding new_superblock zeros
next_superblock-IsSuperblock = record {
  generation_u64 = omega arith;
  uuid_size = refl;
  tenant_u64 = omega arith;
  shard_u64 = omega arith;
  epoch_u64 = omega arith;
  root_ref = omega arith;
  free_ref = tt;
  high_water_ref = omega arith;
  lsn_u64 = omega arith;
}

abbrev written : Superblock → List ℕ
written s =
    copy_at 90 4 (le_bytes 4 (superblock_checksum byte_sum (superblock_fields byte_sum s)))
      (superblock_fields byte_sum s)

superblock_encoded : encode_superblock byte_sum superblock ≡ ok (written superblock)
unfolding encode_superblock new_superblock
superblock_encoded = refl

next_superblock_encoded : encode_superblock byte_sum next_superblock ≡ ok (written next_superblock)
unfolding encode_superblock new_superblock
next_superblock_encoded = refl

abbrev sum_of : Superblock → ℕ
sum_of s = superblock_checksum byte_sum (written s)

decode_superblock-encode_superblock_example :
    decode_superblock byte_sum (written superblock)
    ≡ ok (record superblock { checksum = sum_of superblock })
decode_superblock-encode_superblock_example =
    decode_superblock-encode_superblock byte_sum superblock (written superblock) byte_sum-u32
      superblock-IsSuperblock superblock_encoded

empty_is_torn : decode_superblock byte_sum [] ≡ err corruption
unfolding decode_superblock
empty_is_torn = refl

torn_chosen :
    choose_superblock byte_sum (written superblock) []
    ≡ ok (record {
      slot = SuperblockSlot.a;
      superblock = record superblock { checksum = sum_of superblock };
    })
unfolding choose_superblock select
torn_chosen = rw (
  decode_superblock-encode_superblock byte_sum superblock (written superblock) byte_sum-u32
      superblock-IsSuperblock superblock_encoded,
  empty_is_torn,
)

choose_superblock_next_example :
    choose_superblock byte_sum (written superblock) (written next_superblock)
    ≡ ok (record {
      slot = SuperblockSlot.b;
      superblock = record next_superblock { checksum = sum_of next_superblock };
    })
unfolding new_superblock
choose_superblock_next_example =
    choose_superblock_next byte_sum byte_sum-u32 superblock next_superblock (written superblock)
      (written next_superblock) superblock-IsSuperblock next_superblock-IsSuperblock
      superblock_encoded next_superblock_encoded (omega arith)

choose_superblock_sound_example :
    (decode_superblock byte_sum (written superblock)
      ≡ ok (record superblock { checksum = sum_of superblock }))
    × NotNewer superblock.generation (decode_superblock byte_sum (written superblock))
    × NotNewer superblock.generation (decode_superblock byte_sum [])
choose_superblock_sound_example =
    choose_superblock_sound byte_sum (written superblock) []
      (record {
        slot = SuperblockSlot.a;
        superblock = record superblock { checksum = sum_of superblock };
      })
      torn_chosen

both_torn : choose_superblock byte_sum [] [] ≡ err corruption
unfolding choose_superblock decode_superblock
both_torn = refl

choose_superblock_fails_example :
    NoChoice corruption (decode_superblock byte_sum []) (decode_superblock byte_sum [])
choose_superblock_fails_example = choose_superblock_fails byte_sum [] [] corruption both_torn

abbrev previous_superblock : Superblock
previous_superblock = record superblock { generation = 3; checkpoint_lsn = 60 }

previous_superblock-IsSuperblock : IsSuperblock previous_superblock
unfolding new_superblock zeros
previous_superblock-IsSuperblock = record {
  generation_u64 = omega arith;
  uuid_size = refl;
  tenant_u64 = omega arith;
  shard_u64 = omega arith;
  epoch_u64 = omega arith;
  root_ref = omega arith;
  free_ref = tt;
  high_water_ref = omega arith;
  lsn_u64 = omega arith;
}

previous_superblock_encoded :
    encode_superblock byte_sum previous_superblock ≡ ok (written previous_superblock)
unfolding encode_superblock new_superblock
previous_superblock_encoded = refl

-- The new generation with the old checksum.
abbrev half_written : List ℕ
half_written = torn_write 10 (written next_superblock) (written previous_superblock)

half_written_corrupt : decode_superblock byte_sum half_written ≡ err corruption
unfolding decode_superblock superblock_checksum superblock_fields new_superblock byte_sum slice
    copy_at zeros le_bytes from_le encode_page_id
half_written_corrupt = refl

abbrev kept_superblock : Superblock
kept_superblock = record superblock { checksum = sum_of superblock }

choose_superblock-torn_write_example :
    Survives kept_superblock
      (decode_superblock byte_sum half_written)
      (choose_superblock byte_sum (written superblock) half_written)
    × Survives kept_superblock
        (decode_superblock byte_sum half_written)
        (choose_superblock byte_sum half_written (written superblock))
choose_superblock-torn_write_example =
    choose_superblock-torn_write byte_sum byte_sum-u32 10 superblock previous_superblock
      next_superblock (written superblock) (written previous_superblock) (written next_superblock)
      superblock-IsSuperblock previous_superblock-IsSuperblock next_superblock-IsSuperblock
      superblock_encoded previous_superblock_encoded next_superblock_encoded
