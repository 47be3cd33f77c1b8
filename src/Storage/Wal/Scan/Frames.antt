-- ===== src/Storage/Wal/Scan/Frames.antt =====
-- wal.rs: the scan at one whole frame.
use dodb.Bytes.{slice, le_bytes, slice-part, from_le-le_bytes, length-le_bytes, U32}
use dodb.Storage.Wal.Frame.{Frame, frame_header, frame_length_of}
use dodb.Storage.Wal.Frame.RoundTrip.{
  IsFrame, length-frame_header, decode_header-frame_header, verify_payload_checksum-frame_header,
}
use dodb.Storage.Wal.Scan.{version_differs, lsn_repeats, first_version, frame_at, read_frames}
use dodb.Prelude.{
  ℕ, suc, ◌+◌, ◌<◌, ◌≡◌, refl, sym, ap, ◌∙◌, false, List, ◌∷◌, ◌++◌, append_assoc, Option, some, ok,
  length, take, drop, length-append, take-length_append, drop-length_append, arith,
}

module _ (crc32c : List ℕ → ℕ) where
  -- What `encode_frame` returns.
  abbrev pub frame_bytes : Frame → List ℕ
  frame_bytes frame =
      frame_header crc32c frame ++ (frame.payload ++ le_bytes 4 (frame_length_of frame.payload))

  module _ (frame : Frame) (rest : List ℕ) where
    abbrev trailer : List ℕ
    trailer = le_bytes 4 (frame_length_of frame.payload)

    pub length-frame_bytes : length (frame_bytes frame) ≡ frame_length_of frame.payload
    length-frame_bytes = omega (
      arith,
      length-append (frame_header crc32c frame) (frame.payload ++ trailer),
      length-append frame.payload trailer,
      length-frame_header crc32c frame,
      length-le_bytes 4 (frame_length_of frame.payload),
    )

    spread :
        frame_bytes frame ++ rest
        ≡ frame_header crc32c frame ++ (frame.payload ++ (trailer ++ rest))
    spread =
        append_assoc (frame_header crc32c frame) (frame.payload ++ trailer) rest
        ∙ ap (λ l. frame_header crc32c frame ++ l) (append_assoc frame.payload trailer rest)

    pub length-file :
        length (frame_bytes frame ++ rest) ≡ frame_length_of frame.payload + length rest
    length-file =
        length-append (frame_bytes frame) rest ∙ ap (λ n. n + length rest) length-frame_bytes

    pub header_taken : take 48 (frame_bytes frame ++ rest) ≡ frame_header crc32c frame
    header_taken =
        ap (take 48) spread
        ∙ ap (λ n. take n (frame_header crc32c frame ++ (frame.payload ++ (trailer ++ rest))))
            (sym (length-frame_header crc32c frame))
        ∙ take-length_append (frame_header crc32c frame) (frame.payload ++ (trailer ++ rest))

    payload_slice : slice 48 (length frame.payload) (frame_bytes frame ++ rest) ≡ frame.payload
    payload_slice =
        ap (slice 48 (length frame.payload)) spread
        ∙ slice-part (frame_header crc32c frame) frame.payload (trailer ++ rest)
            (sym (length-frame_header crc32c frame))

    slice-trailer : slice (48 + length frame.payload) 4 (frame_bytes frame ++ rest) ≡ trailer
    slice-trailer =
        ap (slice (48 + length frame.payload) 4)
          (spread ∙ sym (append_assoc (frame_header crc32c frame) frame.payload (trailer ++ rest)))
        ∙ ap
            (λ n.
              slice (48 + length frame.payload) n
                ((frame_header crc32c frame ++ frame.payload) ++ (trailer ++ rest)))
            (sym (length-le_bytes 4 (frame_length_of frame.payload)))
        ∙ slice-part (frame_header crc32c frame ++ frame.payload) trailer rest (
            omega (
              arith,
              length-append (frame_header crc32c frame) frame.payload,
              length-frame_header crc32c frame,
            ))

    pub dropped : drop (frame_length_of frame.payload) (frame_bytes frame ++ rest) ≡ rest
    dropped =
        ap (λ n. drop n (frame_bytes frame ++ rest)) (sym length-frame_bytes)
        ∙ drop-length_append (frame_bytes frame) rest

    module _ (crc_u32 : (bytes : List ℕ) → crc32c bytes < U32) (f : IsFrame frame)
        (first previous : Option ℕ) (same : version_differs first frame.format_version ≡ false)
        (later : lsn_repeats previous frame.record_lsn ≡ false) (fuel : ℕ) where
      frame_at-frame_bytes :
          frame_at crc32c first previous (frame_bytes frame ++ rest)
          ≡ ok (some (frame, frame_length_of frame.payload))
      unfolding frame_at
      frame_at-frame_bytes =
          rw
            (
              header_taken,
              decode_header-frame_header crc32c frame crc_u32 f,
              same,
              payload_slice,
              slice-trailer,
              from_le-le_bytes 4 (frame_length_of frame.payload) (omega (arith, f.size)),
              later,
              verify_payload_checksum-frame_header crc32c frame crc_u32 f,
              length-file,
            )
            (ground (arith, f.size))

      pub read_frames-step :
          {found : List Frame × ℕ}
          → read_frames crc32c fuel
              (first_version first frame.format_version)
              (some frame.record_lsn)
              rest
            ≡ ok found
          → read_frames crc32c (suc fuel) first previous (frame_bytes frame ++ rest)
            ≡ ok (frame ∷ found.0, frame_length_of frame.payload + found.1)
      unfolding read_frames
      read_frames-step ih = rw (frame_at-frame_bytes, dropped, ih) refl
