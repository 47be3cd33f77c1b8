-- ===== src/Storage/Wal/Batches/Recovered.antt =====
-- wal.rs: the second loop of `scan_wal` on the records of a commit.
use dodb.Bytes.{le_bytes, U32, U64}
use dodb.Storage.Wal.Frame.{Frame, WalRecordType}
use dodb.Storage.Wal.Payload.{WalPageImage, validate_page_image, commit_payload}
use dodb.Storage.Wal.Payload.RoundTrip.{
  IsPageImage, image_decoded, decode_commit_payload-commit_payload,
}
use dodb.Storage.Wal.Batches.{
  CommittedWalBatch, PendingBatch, BatchScan, is_other_batch, new_batch, open_batch,
  scan_page_image, take_pending, validate_lsns, scan_commit, scan_record, scan_frame, scan_frames,
}
use dodb.Prelude.{
  ℕ, suc, ◌+◌, ◌%◌, ◌<◌, ◌≤◌, ◌≡◌, refl, sym, ap, ap₂, ◌∙◌, List, [], ◌∷◌, ◌++◌, append_assoc,
  append-nil, Option, none, some, ok, length, length-append, All, arith, leb, le→leb, false, true,
}

abbrev pub image_payload : WalPageImage → List ℕ
image_payload page = le_bytes 8 page.page_id ++ page.image

-- `digest_input` of a commit.
abbrev pub digest_of : List WalPageImage → List ℕ
digest_of [] = []
digest_of (page ∷ pages) = image_payload page ++ digest_of pages

module _ (version batch_id : ℕ) where
  abbrev pub image_frame : ℕ → ℕ → WalPageImage → Frame
  image_frame lsn index page = record {
    format_version = version;
    record_type = WalRecordType.page_image;
    record_lsn = lsn;
    batch_id = batch_id;
    record_index = index;
    payload = image_payload page;
  }

  -- The page-image records, from an LSN and an index on.
  abbrev pub image_frames : ℕ → ℕ → List WalPageImage → List Frame
  image_frames lsn index [] = []
  image_frames lsn index (page ∷ pages) =
      image_frame lsn index page ∷ image_frames (suc lsn) (suc index) pages

  module _ (crc32c : List ℕ → ℕ) where
    abbrev pub commit_frame : ℕ → List WalPageImage → Frame
    commit_frame first_lsn pages = record {
      format_version = version;
      record_type = WalRecordType.commit;
      record_lsn = first_lsn + length pages;
      batch_id = batch_id;
      record_index = length pages;
      payload = commit_payload first_lsn (length pages) (crc32c (digest_of pages));
    }

    -- The records of a commit.
    abbrev pub commit_frames : ℕ → List WalPageImage → List Frame
    commit_frames first_lsn pages =
        image_frames first_lsn 0 pages ++ (commit_frame first_lsn pages ∷ [])

    -- A page that a commit may hold.
    pub record IsImage (page : WalPageImage) : Type 0 where
      pub shape : IsPageImage page
      pub valid : validate_page_image crc32c page ≡ ok tt

    module _ (history_start_lsn : ℕ) (committed : List CommittedWalBatch) (first_lsn : ℕ) where
      -- The state while the batch is read.
      abbrev pub reading : List WalPageImage → List ℕ → BatchScan
      reading pages digest_input = record {
        committed = committed;
        pending = some (record {
          batch_id = batch_id;
          first_record_lsn = first_lsn;
          pages = pages;
          digest_input = digest_input;
        });
        highest_batch_id_seen = batch_id;
        max_batch_id = batch_id;
      }

      image_step :
          (pages : List WalPageImage) (digest_input : List ℕ) (lsn : ℕ) (page : WalPageImage)
          → IsImage page
          → history_start_lsn < lsn
          → length pages < U32
          → scan_page_image crc32c
              (reading pages digest_input)
              (image_frame lsn (length pages) page)
            ≡ ok (reading (pages ++ (page ∷ [])) (digest_input ++ image_payload page))
      unfolding scan_page_image open_batch
      image_step pages digest_input lsn page image later count =
          let small : length pages % U32 ≡ length pages = omega arith in
          rw (image_decoded page image.shape, image.valid) (ground (arith, small))

      frame_step :
          (pages : List WalPageImage) (digest_input : List ℕ) (lsn : ℕ) (page : WalPageImage)
          → IsImage page
          → history_start_lsn < lsn
          → length pages < U32
          → scan_frame crc32c history_start_lsn
              (reading pages digest_input)
              (image_frame lsn (length pages) page)
            ≡ ok (reading (pages ++ (page ∷ [])) (digest_input ++ image_payload page))
      unfolding scan_frame scan_record
      frame_step pages digest_input lsn page image later count =
          let after : leb lsn history_start_lsn ≡ false = ground arith in
          rw (after, le→leb batch_id batch_id (omega arith))
            (image_step pages digest_input lsn page image later count)

      images_read :
          (images pages : List WalPageImage) (digest_input : List ℕ) (lsn : ℕ) (rest : List Frame)
          → All IsImage images
          → history_start_lsn < lsn
          → length pages + length images < U32
          → scan_frames crc32c history_start_lsn
              (reading pages digest_input)
              (image_frames lsn (length pages) images ++ rest)
            ≡ scan_frames crc32c history_start_lsn
                (reading (pages ++ images) (digest_input ++ digest_of images))
                rest
      unfolding scan_frames scan_frame scan_record
      images_read [] pages digest_input lsn rest valid later count =
          ap₂ (λ ps bytes. scan_frames crc32c history_start_lsn (reading ps bytes) rest)
            (sym (append-nil pages)) (sym (append-nil digest_input))
      images_read (page ∷ images) pages digest_input lsn rest valid later count =
          let longer : suc (length pages) ≡ length (pages ++ (page ∷ [])) =
            omega (arith, length-append pages (page ∷ [])) in
          rw (frame_step pages digest_input lsn page valid.0 later (omega arith)) (
            ap
              (λ k.
                scan_frames crc32c history_start_lsn
                  (reading (pages ++ (page ∷ [])) (digest_input ++ image_payload page))
                  (image_frames (suc lsn) k images ++ rest))
              longer
            ∙ images_read images (pages ++ (page ∷ [])) (digest_input ++ image_payload page)
                (suc lsn) rest valid.1 (omega arith) (omega (arith, longer))
            ∙ ap₂ (λ ps bytes. scan_frames crc32c history_start_lsn (reading ps bytes) rest)
                (append_assoc pages (page ∷ []) images)
                (append_assoc digest_input (image_payload page) (digest_of images)))

      -- The state between two batches; a torn batch may be pending.
      abbrev pub waiting : Option PendingBatch → ℕ → ℕ → BatchScan
      waiting pending highest max_id = record {
        committed = committed;
        pending = pending;
        highest_batch_id_seen = highest;
        max_batch_id = max_id;
      }

      open_batch-new :
          (pending : Option PendingBatch) (highest max_id : ℕ) (frame : Frame)
          → frame.batch_id ≡ batch_id
          → is_other_batch pending batch_id ≡ true
          → highest < batch_id
          → open_batch (waiting pending highest max_id) frame ≡ ok (new_batch frame, batch_id)
      unfolding open_batch
      open_batch-new none highest max_id frame same other fresh = ground arith
      open_batch-new (some p) highest max_id frame same other fresh = ground arith

      open_step :
          (pending : Option PendingBatch) (highest max_id : ℕ) (page : WalPageImage)
          → IsImage page
          → history_start_lsn < first_lsn
          → is_other_batch pending batch_id ≡ true
          → highest < batch_id
          → max_id ≤ batch_id
          → scan_frame crc32c history_start_lsn
              (waiting pending highest max_id)
              (image_frame first_lsn 0 page)
            ≡ ok (reading (page ∷ []) (image_payload page))
      unfolding scan_frame scan_record scan_page_image
      open_step pending highest max_id page image later other fresh below =
          let after : leb first_lsn history_start_lsn ≡ false = ground arith in
          rw
            (
              after,
              le→leb max_id batch_id below,
              image_decoded page image.shape,
              image.valid,
              open_batch-new pending highest batch_id (image_frame first_lsn 0 page) refl other
                  fresh,
            )
            refl

      commit_step :
          (pages : List WalPageImage)
          → ((bytes : List ℕ) → crc32c bytes < U32)
          → history_start_lsn < first_lsn
          → first_lsn < U64
          → length pages < U32
          → validate_lsns pages (first_lsn + length pages) ≡ ok tt
          → scan_frame crc32c history_start_lsn
              (reading pages (digest_of pages))
              (commit_frame first_lsn pages)
            ≡ ok (record {
              committed =
                  committed
                  ++ (record {
                    batch_id = batch_id;
                    commit_lsn = first_lsn + length pages;
                    pages = pages;
                  }
                      ∷ []);
              pending = none;
              highest_batch_id_seen = batch_id;
              max_batch_id = batch_id;
            })
      unfolding scan_frame scan_record scan_commit take_pending
      commit_step pages crc_u32 later first_u64 count lsns =
          let after : leb (first_lsn + length pages) history_start_lsn ≡ false = ground arith in
          let small : length pages % U32 ≡ length pages = omega arith in
          rw
            (
              after,
              le→leb batch_id batch_id (omega arith),
              decode_commit_payload-commit_payload first_lsn (length pages)
                  (crc32c (digest_of pages)) first_u64 count (crc_u32 (digest_of pages)),
              lsns,
            )
            (ground (arith, small))

      pub scan_frames-reading :
          (pending : Option PendingBatch) (highest max_id : ℕ) (page : WalPageImage)
          (pages : List WalPageImage) (rest : List Frame)
          → All IsImage (page ∷ pages)
          → history_start_lsn < first_lsn
          → length (page ∷ pages) < U32
          → is_other_batch pending batch_id ≡ true
          → highest < batch_id
          → max_id ≤ batch_id
          → scan_frames crc32c history_start_lsn
              (waiting pending highest max_id)
              (image_frames first_lsn 0 (page ∷ pages) ++ rest)
            ≡ scan_frames crc32c history_start_lsn
                (reading (page ∷ pages) (digest_of (page ∷ pages)))
                rest
      unfolding scan_frames
      scan_frames-reading pending highest max_id page pages rest valid later count other fresh
            below =
          rw (open_step pending highest max_id page valid.0 later other fresh below) (
            images_read pages (page ∷ []) (image_payload page) (suc first_lsn) rest valid.1
              (omega arith) (omega arith))

      -- Recovery of a commit: if the checksum function returns 32-bit values, the pages of a
      -- commit are valid images with the LSN of the commit, its records stand behind the history,
      -- its batch id is above those seen, and the counts and LSNs are in range, then the scan of
      -- its page-image records and its commit record, whatever other batch was left pending before
      -- them, adds exactly that commit and goes on with nothing pending.
      pub scan_frames-image_frames :
          (pending : Option PendingBatch) (highest max_id : ℕ) (page : WalPageImage)
          (pages : List WalPageImage) (rest : List Frame)
          → ((bytes : List ℕ) → crc32c bytes < U32)
          → All IsImage (page ∷ pages)
          → validate_lsns (page ∷ pages) (first_lsn + length (page ∷ pages)) ≡ ok tt
          → history_start_lsn < first_lsn
          → first_lsn < U64
          → length (page ∷ pages) < U32
          → is_other_batch pending batch_id ≡ true
          → highest < batch_id
          → max_id ≤ batch_id
          → scan_frames crc32c history_start_lsn (waiting pending highest max_id) (
              image_frames first_lsn 0 (page ∷ pages)
              ++ (commit_frame first_lsn (page ∷ pages) ∷ rest))
            ≡ scan_frames crc32c history_start_lsn
                (record {
                  committed =
                      committed
                      ++ (record {
                        batch_id = batch_id;
                        commit_lsn = first_lsn + length (page ∷ pages);
                        pages = page ∷ pages;
                      }
                          ∷ []);
                  pending = none;
                  highest_batch_id_seen = batch_id;
                  max_batch_id = batch_id;
                })
                rest
      unfolding scan_frames
      scan_frames-image_frames pending highest max_id page pages rest crc_u32 valid lsns later
            first_u64 count other fresh below =
          scan_frames-reading pending highest max_id page pages
            (commit_frame first_lsn (page ∷ pages) ∷ rest) valid later count other fresh below
          ∙ rw (commit_step (page ∷ pages) crc_u32 later first_u64 count lsns) refl
