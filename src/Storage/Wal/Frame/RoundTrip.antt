-- ===== src/Storage/Wal/Frame/RoundTrip.antt =====
-- wal.rs: the frame header, written and decoded.
use dodb.Bytes.{
  slice, copy_at, zeros, le_bytes, from_le, all_zero, from_le-le_bytes, from_le-one, from_le-zero,
  U32, U64,
}
use dodb.Storage.Wal.Frame.{
  Frame, FrameHeader, WalRecordType, record_code, decode_record_type, wal_magic, header_checksum,
  header_fields, frame_header, frame_length_of, decode_header, verify_payload_checksum,
}
use dodb.Prelude.{ℕ, ◌^◌, ◌<◌, ◌≤◌, ◌≡◌, ◌⊎◌, refl, ap, ◌∙◌, List, [], ◌∷◌, ok, true, length, arith}

-- The fields of a frame are in the range of their types, and its version is one of the two.
pub record IsFrame (frame : Frame) : Type 0 where
  pub version : (frame.format_version ≡ 1) ⊎ (frame.format_version ≡ 2)
  pub lsn_u64 : frame.record_lsn < U64
  pub batch_u64 : frame.batch_id < U64
  pub index_u32 : frame.record_index < U32
  pub size : length frame.payload ≤ 67108864

decode_record_type-record_code : (t : WalRecordType) → decode_record_type (record_code t) ≡ ok t
unfolding decode_record_type record_code
decode_record_type-record_code WalRecordType.init = refl
decode_record_type-record_code _ = refl

-- The header that the decoder finds.
abbrev pub header_of : Frame → FrameHeader
header_of frame = record {
  format_version = frame.format_version;
  record_type = frame.record_type;
  frame_length = frame_length_of frame.payload;
  payload_length = length frame.payload;
  record_lsn = frame.record_lsn;
  batch_id = frame.batch_id;
  record_index = frame.record_index;
}

module _ (crc32c : List ℕ → ℕ) (frame : Frame) where
  abbrev header : List ℕ
  header = frame_header crc32c frame

  record Layout : Type 0 where
    size : length header ≡ 48
    magic : slice 0 4 header ≡ wal_magic
    version : slice 4 2 header ≡ le_bytes 2 frame.format_version
    type_byte : slice 6 1 header ≡ record_code frame.record_type ∷ []
    reserved : slice 7 1 header ≡ 0 ∷ []
    reserved_end : all_zero (slice 36 4 header) ≡ true
    frame_length : slice 8 4 header ≡ le_bytes 4 (frame_length_of frame.payload)
    payload_length : slice 12 4 header ≡ le_bytes 4 (length frame.payload)
    lsn : slice 16 8 header ≡ le_bytes 8 frame.record_lsn
    batch : slice 24 8 header ≡ le_bytes 8 frame.batch_id
    index : slice 32 4 header ≡ le_bytes 4 frame.record_index
    stored : slice 40 4 header ≡ le_bytes 4 (header_checksum crc32c (header_fields crc32c frame))
    payload_sum : slice 44 4 header ≡ le_bytes 4 (crc32c frame.payload)
    cleared : header_checksum crc32c header ≡ header_checksum crc32c (header_fields crc32c frame)

  layout : Layout
  unfolding frame_header header_fields header_checksum slice copy_at zeros le_bytes
  layout = record {
    size = refl;
    magic = refl;
    version = refl;
    type_byte = refl;
    reserved = refl;
    reserved_end = refl;
    frame_length = refl;
    payload_length = refl;
    lsn = refl;
    batch = refl;
    index = refl;
    stored = refl;
    payload_sum = refl;
    cleared = refl;
  }

  pub length-frame_header : length header ≡ 48
  length-frame_header = layout.size

  module _ (crc_u32 : (bytes : List ℕ) → crc32c bytes < U32) (f : IsFrame frame) where
    word :
        (n value : ℕ) {bytes : List ℕ}
        → bytes ≡ le_bytes n value
        → value < 256 ^ n
        → from_le bytes ≡ value
    word n value e small = ap from_le e ∙ from_le-le_bytes n value small

    sum_bound : header_checksum crc32c (header_fields crc32c frame) < U32
    unfolding header_checksum
    sum_bound = crc_u32 _

    -- If the checksum function returns 32-bit values and the fields are in range, the header
    -- decodes to the fields and lengths of the frame.
    pub decode_header-frame_header : decode_header crc32c header ≡ ok (header_of frame)
    unfolding decode_header
    decode_header-frame_header =
        rw
          (
            layout.size,
            layout.magic,
            word 2 frame.format_version layout.version (omega (arith, f.version)),
            layout.reserved,
            from_le-zero,
            layout.reserved_end,
            word 4 (header_checksum crc32c (header_fields crc32c frame)) layout.stored
                (omega (arith, sum_bound)),
            layout.cleared,
            layout.type_byte,
            from_le-one (record_code frame.record_type),
            decode_record_type-record_code frame.record_type,
            word 4 (frame_length_of frame.payload) layout.frame_length (omega (arith, f.size)),
            word 4 (length frame.payload) layout.payload_length (omega (arith, f.size)),
            word 8 frame.record_lsn layout.lsn (omega (arith, f.lsn_u64)),
            word 8 frame.batch_id layout.batch (omega (arith, f.batch_u64)),
            word 4 frame.record_index layout.index (omega (arith, f.index_u32)),
          )
          (ground (arith, f.version))

    pub verify_payload_checksum-frame_header :
        verify_payload_checksum crc32c header frame.payload ≡ ok tt
    unfolding verify_payload_checksum
    verify_payload_checksum-frame_header =
        rw (word 4 (crc32c frame.payload) layout.payload_sum (omega (arith, crc_u32 frame.payload)))
          (ground arith)
