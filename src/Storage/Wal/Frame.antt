-- ===== src/Storage/Wal/Frame.antt =====
-- crates/dodb-storage/src/wal.rs: the frames of the log, `encode_frame` and `decode_header`.
-- The frame length is at most 64 MiB and 52 bytes, so the checked additions on `usize` do not fail.
pub mod RoundTrip
use dodb.Core.Error.{Result, invalid_input, corruption, unsupported_format}
use dodb.Bytes.{
  slice, copy_at, zeros, le_bytes, eq_bytes, all_zero, u16_at, u32_at, u64_at, byte_at, U32,
}
use dodb.Prelude.{
  ℕ, ◌+◌, ◌-◌, ◌*◌, List, [], ◌∷◌, ◌++◌, not, ◌||◌, ◌&&◌, ok, err, ◌>>=◌, ◌>>◌, fail_if, ◌==◌, ltb,
  length, take, drop, if◌then◌else◌,
}

abbrev pub wal_format_version : ℕ
wal_format_version = 2

abbrev pub legacy_wal_format_version : ℕ
legacy_wal_format_version = 1

-- `*b"DWAL"`
abbrev pub wal_magic : List ℕ
wal_magic = b'D' ∷ b'W' ∷ b'A' ∷ b'L' ∷ []

abbrev pub wal_header_size : ℕ
wal_header_size = 48

abbrev pub wal_trailer_size : ℕ
wal_trailer_size = 4

abbrev pub wal_min_frame_size : ℕ
wal_min_frame_size = wal_header_size + wal_trailer_size

abbrev pub wal_max_payload_size : ℕ
wal_max_payload_size = 64 * 1024 * 1024

abbrev pub header_checksum_offset : ℕ
header_checksum_offset = 40

abbrev pub payload_checksum_offset : ℕ
payload_checksum_offset = 44

pub data WalRecordType : Type 0 where
  init page_image commit : WalRecordType

-- `record_type as u8`
unfoldable pub record_code : WalRecordType → ℕ
record_code WalRecordType.init = 1
record_code WalRecordType.page_image = 2
record_code WalRecordType.commit = 3

-- `WalRecordType::decode`
unfoldable pub decode_record_type : ℕ → Result WalRecordType
decode_record_type value =
    if value == 1
    then ok WalRecordType.init
    else if value == 2
    then ok WalRecordType.page_image
    else if value == 3
    then ok WalRecordType.commit
    else err unsupported_format

pub record Frame : Type 0 where
  pub format_version : ℕ
  pub record_type : WalRecordType
  pub record_lsn : ℕ
  pub batch_id : ℕ
  pub record_index : ℕ
  pub payload : List ℕ

-- The tuple that `decode_header` returns.
pub record FrameHeader : Type 0 where
  pub format_version : ℕ
  pub record_type : WalRecordType
  pub frame_length : ℕ
  pub payload_length : ℕ
  pub record_lsn : ℕ
  pub batch_id : ℕ
  pub record_index : ℕ

abbrev pub frame_length_of : List ℕ → ℕ
frame_length_of payload = wal_header_size + length payload + wal_trailer_size

module _ (crc32c : List ℕ → ℕ) where
  unfoldable pub header_checksum : List ℕ → ℕ
  header_checksum header = crc32c (copy_at header_checksum_offset 4 (zeros 4) header)

  -- The header before its own checksum is filled in.
  unfoldable pub header_fields : Frame → List ℕ
  header_fields frame =
      let h0 = copy_at 0 4 wal_magic (zeros wal_header_size) in
      let h1 = copy_at 4 2 (le_bytes 2 frame.format_version) h0 in
      let h2 = copy_at 6 1 (record_code frame.record_type ∷ []) h1 in
      let h3 = copy_at 8 4 (le_bytes 4 (frame_length_of frame.payload)) h2 in
      let h4 = copy_at 12 4 (le_bytes 4 (length frame.payload)) h3 in
      let h5 = copy_at 16 8 (le_bytes 8 frame.record_lsn) h4 in
      let h6 = copy_at 24 8 (le_bytes 8 frame.batch_id) h5 in
      let h7 = copy_at 32 4 (le_bytes 4 frame.record_index) h6 in
      copy_at payload_checksum_offset 4 (le_bytes 4 (crc32c frame.payload)) h7

  -- The finished header.
  unfoldable pub frame_header : Frame → List ℕ
  frame_header frame =
      let header = header_fields frame in
      copy_at header_checksum_offset 4 (le_bytes 4 (header_checksum header)) header

  -- The arguments of the source's `encode_frame` are the fields of the frame.
  unfoldable pub encode_frame : Frame → Result (List ℕ)
  encode_frame frame = do
    fail_if (ltb wal_max_payload_size (length frame.payload)) invalid_input
    let frame_length = frame_length_of frame.payload
    fail_if (ltb (U32 - 1) frame_length) invalid_input
    fail_if (ltb (U32 - 1) (length frame.payload)) invalid_input
    ok (frame_header frame ++ (frame.payload ++ le_bytes 4 frame_length))

  -- `append_frame` on a file that takes every write: its three writes, each behind the one before.
  -- The result is the file and the length of the frame.
  unfoldable pub append_frame : List ℕ → Frame → Result (List ℕ × ℕ)
  append_frame file frame = do
    bytes ← encode_frame frame
    let payload_end = wal_header_size + length frame.payload
    let with_header = file ++ take wal_header_size bytes
    let with_payload = with_header ++ slice wal_header_size (payload_end - wal_header_size) bytes
    ok (with_payload ++ drop payload_end bytes, length bytes)

  -- One `append_frame` behind the other.
  unfoldable pub append_frames : List ℕ → List Frame → Result (List ℕ)
  append_frames file [] = ok file
  append_frames file (frame ∷ frames) = do
    (longer, size) ← append_frame file frame
    append_frames longer frames

  unfoldable pub decode_header : List ℕ → Result FrameHeader
  decode_header bytes = do
    fail_if (not (length bytes == wal_header_size)) corruption
    fail_if (not (eq_bytes (slice 0 4 bytes) wal_magic)) corruption
    let version = u16_at 4 bytes
    fail_if (not (version == wal_format_version) && not (version == legacy_wal_format_version))
        unsupported_format
    fail_if (not (byte_at 7 bytes == 0) || not (all_zero (slice 36 4 bytes))) corruption
    fail_if (not (u32_at header_checksum_offset bytes == header_checksum bytes)) corruption
    record_type ← decode_record_type (byte_at 6 bytes)
    ok (record {
      format_version = version;
      record_type = record_type;
      frame_length = u32_at 8 bytes;
      payload_length = u32_at 12 bytes;
      record_lsn = u64_at 16 bytes;
      batch_id = u64_at 24 bytes;
      record_index = u32_at 32 bytes;
    })

  unfoldable pub verify_payload_checksum : List ℕ → List ℕ → Result (Unit {0})
  verify_payload_checksum header payload =
      fail_if (not (u32_at payload_checksum_offset header == crc32c payload)) corruption
