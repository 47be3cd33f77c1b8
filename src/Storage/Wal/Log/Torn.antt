-- ===== src/Storage/Wal/Log/Torn.antt =====
-- wal.rs: a log whose last commit reached the file only in part.
use dodb.Bytes.{U32, U64}
use dodb.Storage.Wal.Frame.{Frame}
use dodb.Storage.Wal.Frame.RoundTrip.{IsFrame}
use dodb.Storage.Wal.Scan.Frames.{frame_bytes}
use dodb.Storage.Wal.Scan.Appended.{Ascending, log_bytes, log_bytes-append}
use dodb.Storage.Wal.Payload.{WalIdentity, WalPageImage}
use dodb.Storage.Wal.Batches.{CommittedWalBatch, scan_frames}
use dodb.Storage.Wal.Batches.Recovered.{
  IsImage, image_frame, image_frames, digest_of, scan_frames-reading,
}
use dodb.Storage.Wal.Log.Holds.{Holds}
use dodb.Storage.Wal.Log.Order.{
  Below-le, Ascending-append, image_frames-Below, image_frames-IsVersion, image_frames-Ascending,
  scan_frames-append,
}
use dodb.Prelude.{
  ℕ, suc, zero, ◌+◌, ◌-◌, ◌<◌, ◌≤◌, ◌≡◌, refl, sym, subst, ap, ◌∙◌, inl, inr, List, [], ◌∷◌, ◌++◌,
  append_assoc, append-nil, none, some, ltb, Bool-cases, length, take, take-append_le,
  take-length_add, length-append, All, All-append, arith,
}

-- A part of the bytes of frames is some of the frames, whole, and a proper prefix of the next.
pub take-log_bytes {ℓ} :
    (crc32c : List ℕ → ℕ) (P : Frame → Type ℓ) (frames : List Frame) (n : ℕ)
    → All P frames
    → n < length (log_bytes crc32c frames)
    → (j : ℕ) × (m : ℕ) × (torn : Frame) × (take n (log_bytes crc32c frames)
        ≡ log_bytes crc32c (take j frames) ++ take m (frame_bytes crc32c torn))
      × (m < length (frame_bytes crc32c torn))
      × (j < length frames)
      × P torn
unfolding log_bytes
take-log_bytes crc32c P [] n all short = absurd (omega arith)
take-log_bytes crc32c P (f ∷ fs) n all short =
    let size = length (frame_bytes crc32c f) in
    elim (Bool-cases (ltb n size)) [
      | inl inside ↦ (
        0,
        n,
        f,
        take-append_le n (frame_bytes crc32c f) (log_bytes crc32c fs) (ground arith),
        ground arith,
        omega arith,
        all.0,
      )
      | inr past ↦
          let k = n - size in
          let n_eq : size + k ≡ n = ground arith in
          let (j, m, torn, cut, small, j_small, p) =
            take-log_bytes crc32c P fs k all.1
              (omega (arith, n_eq, length-append (frame_bytes crc32c f) (log_bytes crc32c fs))) in
          (
            suc j,
            m,
            torn,
            ap (λ i. take i (frame_bytes crc32c f ++ log_bytes crc32c fs)) (sym n_eq)
                ∙ take-length_add (frame_bytes crc32c f) (log_bytes crc32c fs) k
                ∙ ap (λ l. frame_bytes crc32c f ++ l) cut
                ∙ sym (append_assoc (frame_bytes crc32c f) (log_bytes crc32c (take j fs)) _),
            small,
            omega arith,
            p,
          )
    ]

-- The first frames of a commit, its last left out, are those of the first pages.
pub take-commit_frames :
    (version batch_id lsn index j : ℕ) (pages : List WalPageImage) (last : Frame)
    → j ≤ length pages
    → take j (image_frames version batch_id lsn index pages ++ (last ∷ []))
      ≡ image_frames version batch_id lsn index (take j pages)
take-commit_frames version batch_id lsn index zero pages last h = refl
take-commit_frames version batch_id lsn index (suc j) [] last h = absurd (omega arith)
take-commit_frames version batch_id lsn index (suc j) (page ∷ pages) last h =
    ap (λ l. image_frame version batch_id lsn index page ∷ l)
      (take-commit_frames version batch_id (suc lsn) (suc index) j pages last (omega arith))

pub length-image_frames :
    (version batch_id lsn index : ℕ) (pages : List WalPageImage)
    → length (image_frames version batch_id lsn index pages) ≡ length pages
length-image_frames version batch_id lsn index [] = refl
length-image_frames version batch_id lsn index (page ∷ pages) =
    omega (arith, length-image_frames version batch_id (suc lsn) (suc index) pages)

module _ (crc32c : List ℕ → ℕ) (identity : WalIdentity) (version history : ℕ) (file : List ℕ)
    (first_lsn batch_id : ℕ) (committed : List CommittedWalBatch)
    (h : Holds crc32c identity version history file first_lsn batch_id committed) where
  -- Page images without their commit record leave a log in order, with the batches from before.
  pub Holds-image_frames :
      (pages : List WalPageImage)
      → All (IsImage version batch_id crc32c) pages
      → All IsFrame (image_frames version batch_id first_lsn 0 pages)
      → length pages < U32
      → suc batch_id < U64
      → (next_batch_id : ℕ) × Holds crc32c identity version history
          (file ++ log_bytes crc32c (image_frames version batch_id first_lsn 0 pages))
          (first_lsn + length pages)
          next_batch_id
          committed
  unfolding log_bytes scan_frames
  Holds-image_frames [] images frames count batch_u64 =
      let same : first_lsn ≡ first_lsn + 0 = omega arith in
      (
        batch_id,
        subst (λ l. Holds crc32c identity version history (file ++ []) l batch_id committed) same
            (subst (λ f. Holds crc32c identity version history f first_lsn batch_id committed)
              (sym (append-nil file)) h),
      )
  Holds-image_frames (page ∷ pages) images frames count batch_u64 =
      let added = image_frames version batch_id first_lsn 0 (page ∷ pages) in
      let all = h.first ∷ h.rest in
      let bound = first_lsn + length (page ∷ pages) in
      (
        suc batch_id,
        record {
          first = h.first;
          rest = h.rest ++ added;
          pending = some (record {
            batch_id = batch_id;
            first_record_lsn = first_lsn;
            pages = page ∷ pages;
            digest_input = digest_of (page ∷ pages);
          });
          highest = batch_id;
          max_id = batch_id;
          bytes =
              ap (λ l. l ++ log_bytes crc32c added) h.bytes
              ∙ sym (log_bytes-append crc32c all added);
          is_init = h.is_init;
          version_ok = h.version_ok;
          frames = All-append IsFrame all added h.frames frames;
          versions =
              All-append (λ (f : Frame). f.format_version ≡ version) all added h.versions
                (image_frames-IsVersion version batch_id (page ∷ pages) first_lsn 0);
          order = Ascending-append none all added first_lsn h.order tt h.below (λ q behind.
              subst (Ascending q) (append-nil added) (
                image_frames-Ascending version batch_id (page ∷ pages) first_lsn 0 q [] behind
                  (λ q' behind'. tt)));
          below =
              All-append (λ (f : Frame). f.record_lsn < bound) all added
                (Below-le first_lsn bound all (omega arith) h.below)
                (image_frames-Below version batch_id (page ∷ pages) first_lsn 0 bound
                  (omega arith));
          after_history = omega (arith, h.after_history);
          scanned =
              scan_frames-append crc32c history h.rest added _ _ h.scanned
              ∙ ap (scan_frames crc32c history _) (sym (append-nil added))
              ∙ scan_frames-reading version batch_id crc32c history committed first_lsn h.pending
                  h.highest h.max_id page pages [] images h.after_history count h.other
                  h.highest_below (omega (arith, h.next_batch));
          highest_below = omega arith;
          next_batch = refl;
          batch_u64 = batch_u64;
          other = ground arith;
        },
      )
