-- ===== src/Storage/Wal/Scan/Tail.antt =====
-- wal.rs: the scan at a frame of which only a part reached the file.
use dodb.Bytes.{U32}
use dodb.Storage.Wal.Frame.{Frame, frame_header}
use dodb.Storage.Wal.Frame.RoundTrip.{IsFrame, decode_header-frame_header}
use dodb.Storage.Wal.Scan.{version_differs, frame_at}
use dodb.Storage.Wal.Scan.Frames.{frame_bytes, length-frame_bytes, header_taken}
use dodb.Prelude.{
  ℕ, ◌<◌, ◌≤◌, ◌≡◌, refl, sym, ap, ◌∙◌, false, List, [], append-nil, Option, none, ok, inl, inr,
  length, take, length-take, take-take, ltb, Bool-cases, arith,
}

module _ (crc32c : List ℕ → ℕ) (crc_u32 : (bytes : List ℕ) → crc32c bytes < U32) (torn : Frame)
    (f : IsFrame torn) (n : ℕ) (short : n < length (frame_bytes crc32c torn)) where
  abbrev tail : List ℕ
  tail = take n (frame_bytes crc32c torn)

  length-tail : length tail ≡ n
  length-tail = omega (arith, length-take n (frame_bytes crc32c torn))

  tail_header : 48 ≤ n → take 48 tail ≡ frame_header crc32c torn
  tail_header h =
      take-take 48 n (frame_bytes crc32c torn) h
      ∙ ap (take 48) (sym (append-nil (frame_bytes crc32c torn)))
      ∙ header_taken crc32c torn []

  pub frame_at-tail :
      (first previous : Option ℕ)
      → version_differs first torn.format_version ≡ false
      → frame_at crc32c first previous tail ≡ ok none
  unfolding frame_at
  frame_at-tail first previous same = elim (Bool-cases (ltb n 48)) [
    | inl small ↦ rw (length-tail, small) refl
    | inr big ↦
        rw
          (
            length-tail,
            big,
            tail_header (ground arith),
            decode_header-frame_header crc32c torn crc_u32 f,
            same,
          )
          (ground (arith, f.size, short, length-frame_bytes crc32c torn []))
  ]
