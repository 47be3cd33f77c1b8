-- ===== src/Storage/Wal/Scan.antt =====
-- crates/dodb-storage/src/wal.rs: the first loop of `scan_wal`, which reads frames up to the tail.
-- The file is the list of its bytes, so `read_exact_at` is a slice and its I/O errors do not occur.
pub mod Frames
pub mod Tail
pub mod Appended
use dodb.Core.Error.{Result, corruption}
use dodb.Bytes.{slice, from_le}
use dodb.Storage.Wal.Frame.{
  Frame, FrameHeader, decode_header, verify_payload_checksum, wal_header_size, wal_trailer_size,
  wal_min_frame_size, wal_max_payload_size,
}
use dodb.Prelude.{
  ℕ, zero, suc, ◌+◌, Bool, true, false, not, ◌||◌, List, [], ◌∷◌, Option, none, some, ok, ◌>>=◌,
  ◌>>◌, fail_if, ◌==◌, if◌then◌else◌, ltb, leb, length, take, drop,
}

-- The first frame has another version.
abbrev pub version_differs : Option ℕ → ℕ → Bool
version_differs none version = false
version_differs (some first) version = not (first == version)

-- The frame before has this LSN or a later one.
abbrev pub lsn_repeats : Option ℕ → ℕ → Bool
lsn_repeats none lsn = false
lsn_repeats (some previous) lsn = leb lsn previous

abbrev pub first_version : Option ℕ → ℕ → Option ℕ
first_version none version = some version
first_version (some first) version = some first

module _ (crc32c : List ℕ → ℕ) where
  -- One round of the loop on a file that goes on with `rest`: the frame and its length, or nothing
  -- where the loop breaks off because the rest is too short. `first` is the version of the first
  -- frame.
  unfoldable pub frame_at : Option ℕ → Option ℕ → List ℕ → Result (Option (Frame × ℕ))
  frame_at first previous rest = if ltb (length rest) wal_header_size then ok none else do
    let header_bytes = take wal_header_size rest
    header ← decode_header crc32c header_bytes
    fail_if (version_differs first header.format_version) corruption
    let whole = wal_header_size + header.payload_length + wal_trailer_size
    fail_if
        (ltb header.frame_length wal_min_frame_size
          || (not (header.frame_length == whole) || ltb wal_max_payload_size header.payload_length))
        corruption
    if ltb (length rest) header.frame_length then ok none else do
      let payload = slice wal_header_size header.payload_length rest
      let trailer = slice (wal_header_size + header.payload_length) wal_trailer_size rest
      fail_if (not (from_le trailer == header.frame_length)) corruption
      fail_if (lsn_repeats previous header.record_lsn) corruption
      verify_payload_checksum crc32c header_bytes payload
      ok (
          some (
            record {
              format_version = header.format_version;
              record_type = header.record_type;
              record_lsn = header.record_lsn;
              batch_id = header.batch_id;
              record_index = header.record_index;
              payload = payload;
            },
            header.frame_length,
          ))

  -- The loop. The result is the frames and how many bytes they take, the valid length. A frame takes
  -- 52 bytes at least, so the length of the file is fuel enough.
  unfoldable pub read_frames : ℕ → Option ℕ → Option ℕ → List ℕ → Result (List Frame × ℕ)
  read_frames zero first previous rest = ok ([], 0)
  read_frames (suc fuel) first previous rest = frame_at first previous rest >>= (λ found.
      elim found [
        | none ↦ ok ([], 0)
        | some (frame, size) ↦
            read_frames fuel (first_version first frame.format_version) (some frame.record_lsn)
              (drop size rest)
            >>= (λ (tail : List Frame × ℕ). ok (frame ∷ tail.0, size + tail.1))
      ])
