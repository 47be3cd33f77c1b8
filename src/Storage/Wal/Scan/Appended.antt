-- ===== src/Storage/Wal/Scan/Appended.antt =====
-- wal.rs: the scan of a file that was written by appending frames, with a torn frame at its end.
use dodb.Bytes.{slice, U32, slice-append-drop}
use dodb.Storage.Wal.Frame.{Frame, encode_frame, append_frame, append_frames}
use dodb.Storage.Wal.Frame.RoundTrip.{IsFrame}
use dodb.Storage.Wal.Scan.{version_differs, lsn_repeats, first_version, read_frames}
use dodb.Storage.Wal.Scan.Frames.{frame_bytes, read_frames-step, length-file}
use dodb.Storage.Wal.Scan.Tail.{frame_at-tail}
use dodb.Prelude.{
  ℕ, zero, suc, ◌+◌, ◌-◌, ◌<◌, ◌≤◌, ◌≡◌, refl, sym, ap, subst, ◌∙◌, false, List, [], ◌∷◌, ◌++◌,
  append_assoc, append-nil, Option, none, some, ok, ok-injective, >>=-eq-ok, length, take, drop,
  length-append, take-append-drop, All, arith,
}

-- An LSN behind the one before, if there is one.
abbrev pub Behind : Option ℕ → ℕ → Type 0
Behind none lsn = Unit
Behind (some previous) lsn = previous < lsn

-- The LSNs of the frames go up strictly.
abbrev pub Ascending : Option ℕ → List Frame → Type 0
Ascending previous [] = Unit
Ascending previous (frame ∷ frames) =
    Behind previous frame.record_lsn × Ascending (some frame.record_lsn) frames

lsn_repeats-Behind :
    (previous : Option ℕ) (lsn : ℕ) → Behind previous lsn → lsn_repeats previous lsn ≡ false
lsn_repeats-Behind none lsn h = refl
lsn_repeats-Behind (some previous) lsn h = ground arith

-- The version of the log, if a frame has been read.
abbrev pub Agrees : Option ℕ → ℕ → Type 0
Agrees none version = Unit
Agrees (some first) version = first ≡ version

version_differs-Agrees :
    (first : Option ℕ) (version : ℕ) → Agrees first version → version_differs first version ≡ false
version_differs-Agrees none version h = refl
version_differs-Agrees (some first) version h = ground arith

Agrees-first_version :
    (first : Option ℕ) (version : ℕ)
    → Agrees first version
    → Agrees (first_version first version) version
Agrees-first_version none version h = refl
Agrees-first_version (some first) version h = h

module _ (crc32c : List ℕ → ℕ) where
  -- The bytes of a log.
  unfoldable pub log_bytes : List Frame → List ℕ
  log_bytes [] = []
  log_bytes (frame ∷ frames) = frame_bytes crc32c frame ++ log_bytes frames

  module _ (crc_u32 : (bytes : List ℕ) → crc32c bytes < U32) (version : ℕ) (torn : Frame)
      (is_torn : IsFrame torn) (torn_version : torn.format_version ≡ version) (n : ℕ)
      (short : n < length (frame_bytes crc32c torn)) where
    abbrev tail : List ℕ
    tail = take n (frame_bytes crc32c torn)

    read_frames-tail :
        (fuel : ℕ) (first previous : Option ℕ)
        → Agrees first version
        → read_frames crc32c fuel first previous tail ≡ ok ([], 0)
    unfolding read_frames
    read_frames-tail zero first previous agrees = refl
    read_frames-tail (suc fuel) first previous agrees =
        rw
          (frame_at-tail crc32c crc_u32 torn is_torn n short first previous
            (rw torn_version (version_differs-Agrees first version agrees)))
          refl

    pub read_frames-log_bytes :
        (frames : List Frame) (fuel : ℕ) (first previous : Option ℕ)
        → All IsFrame frames
        → All (λ (f : Frame). f.format_version ≡ version) frames
        → Ascending previous frames
        → Agrees first version
        → length frames ≤ fuel
        → read_frames crc32c fuel first previous (log_bytes frames ++ tail)
          ≡ ok (frames, length (log_bytes frames))
    unfolding log_bytes
    read_frames-log_bytes [] fuel first previous valid same order agrees enough =
        read_frames-tail fuel first previous agrees
    read_frames-log_bytes (frame ∷ frames) zero first previous valid same order agrees enough =
        absurd (omega arith)
    read_frames-log_bytes (frame ∷ frames) (suc fuel) first previous valid same order agrees
          enough =
        let agrees' : Agrees first frame.format_version =
          subst (Agrees first) (sym same.0) agrees in
        let next : Agrees (first_version first frame.format_version) version =
          subst (Agrees (first_version first frame.format_version)) same.0
            (Agrees-first_version first frame.format_version agrees') in
        ap (read_frames crc32c (suc fuel) first previous)
          (append_assoc (frame_bytes crc32c frame) (log_bytes frames) tail)
        ∙ read_frames-step crc32c frame (log_bytes frames ++ tail) crc_u32 valid.0 first previous
            (version_differs-Agrees first frame.format_version agrees')
            (lsn_repeats-Behind previous frame.record_lsn order.0) fuel
            (read_frames-log_bytes frames fuel (first_version first frame.format_version)
              (some frame.record_lsn) valid.1 same.1 order.1 next (omega arith))
        ∙ ap (λ s. ok (frame ∷ frames, s)) (sym (length-file crc32c frame (log_bytes frames)))

  pub log_bytes-append : (fs gs : List Frame) → log_bytes (fs ++ gs) ≡ log_bytes fs ++ log_bytes gs
  unfolding log_bytes
  log_bytes-append [] gs = refl
  log_bytes-append (frame ∷ fs) gs =
      ap (λ l. frame_bytes crc32c frame ++ l) (log_bytes-append fs gs)
      ∙ sym (append_assoc (frame_bytes crc32c frame) (log_bytes fs) (log_bytes gs))

  -- The three writes of a frame, together.
  three_writes :
      (file bytes : List ℕ) (p : ℕ)
      → ((file ++ take 48 bytes) ++ slice 48 (48 + p - 48) bytes) ++ drop (48 + p) bytes
        ≡ file ++ bytes
  three_writes file bytes p =
      ap (λ m. ((file ++ take 48 bytes) ++ slice 48 m bytes) ++ drop (48 + p) bytes)
        (let e : 48 + p - 48 ≡ p = omega arith in e)
      ∙ append_assoc (file ++ take 48 bytes) (slice 48 p bytes) (drop (48 + p) bytes)
      ∙ ap (λ l. (file ++ take 48 bytes) ++ l) (slice-append-drop 48 p bytes)
      ∙ append_assoc file (take 48 bytes) (drop 48 bytes)
      ∙ ap (λ l. file ++ l) (take-append-drop 48 bytes)

  pub append_frame-frame_bytes :
      (file : List ℕ) (frame : Frame) (out : List ℕ × ℕ)
      → append_frame crc32c file frame ≡ ok out
      → (file ++ frame_bytes crc32c frame) ≡ out.0
  unfolding append_frame encode_frame
  append_frame-frame_bytes file frame out h =
      let (bytes, encoded, last) = >>=-eq-ok (encode_frame crc32c frame) _ h in
      let same : frame_bytes crc32c frame ≡ bytes = ground arith in
      ap (λ l. file ++ l) same
      ∙ sym (three_writes file bytes (length frame.payload))
      ∙ ap (λ (o : List ℕ × ℕ). o.0) (ok-injective last)

  pub append_frames-log_bytes :
      (frames : List Frame) (before file : List ℕ)
      → append_frames crc32c before frames ≡ ok file
      → before ++ log_bytes frames ≡ file
  unfolding append_frames log_bytes
  append_frames-log_bytes [] before file h = append-nil before ∙ ok-injective h
  append_frames-log_bytes (frame ∷ frames) before file h =
      let (out, appended, rest) = >>=-eq-ok (append_frame crc32c before frame) _ h in
      sym (append_assoc before (frame_bytes crc32c frame) (log_bytes frames))
      ∙ ap (λ l. l ++ log_bytes frames) (append_frame-frame_bytes before frame out appended)
      ∙ append_frames-log_bytes frames out.0 file rest

  pub encode_frame-frame_bytes :
      (frame : Frame) (bytes : List ℕ)
      → encode_frame crc32c frame ≡ ok bytes
      → frame_bytes crc32c frame ≡ bytes
  unfolding encode_frame
  encode_frame-frame_bytes frame bytes h = ground arith

  pub length-log_bytes : (frames : List Frame) → length frames ≤ length (log_bytes frames)
  unfolding log_bytes
  length-log_bytes [] = omega arith
  length-log_bytes (frame ∷ frames) =
      omega (arith, length-log_bytes frames, length-file crc32c frame (log_bytes frames))

  -- A crash while a frame is appended: if the checksum function returns 32-bit values, the frames
  -- of the log and the torn one are in range and of one version, and the LSNs of the log go up
  -- strictly, then a scan of the log with any proper prefix of the torn frame behind it, the empty
  -- one included, reads exactly the frames of the log, and its valid length is that of the log.
  pub read_frames-append_frames :
      (version : ℕ) (frames : List Frame) (torn : Frame) (file bytes : List ℕ) (n : ℕ)
      → ((input : List ℕ) → crc32c input < U32)
      → All IsFrame frames
      → All (λ (f : Frame). f.format_version ≡ version) frames
      → Ascending none frames
      → IsFrame torn
      → torn.format_version ≡ version
      → append_frames crc32c [] frames ≡ ok file
      → encode_frame crc32c torn ≡ ok bytes
      → n < length bytes
      → read_frames crc32c (length (file ++ take n bytes)) none none (file ++ take n bytes)
        ≡ ok (frames, length file)
  read_frames-append_frames version frames torn file bytes n crc_u32 valid same order is_torn
        torn_version appended encoded short =
      let torn_eq = encode_frame-frame_bytes torn bytes encoded in
      let file_eq = append_frames-log_bytes frames [] file appended in
      let short' : n < length (frame_bytes crc32c torn) = omega (arith, ap length torn_eq) in
      subst
        (λ b.
          read_frames crc32c (length (file ++ take n b)) none none (file ++ take n b)
          ≡ ok (frames, length file))
        torn_eq
        (subst
          (λ l.
            read_frames crc32c (length (l ++ take n (frame_bytes crc32c torn))) none none
              (l ++ take n (frame_bytes crc32c torn))
            ≡ ok (frames, length l))
          file_eq
          (read_frames-log_bytes crc_u32 version torn is_torn torn_version n short' frames
            (length (log_bytes frames ++ take n (frame_bytes crc32c torn))) none none valid same
            order tt
            (omega (
              arith,
              length-log_bytes frames,
              length-append (log_bytes frames) (take n (frame_bytes crc32c torn)),
            ))))
