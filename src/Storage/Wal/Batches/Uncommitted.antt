-- ===== src/Storage/Wal/Batches/Uncommitted.antt =====
-- wal.rs: the second loop of `scan_wal` on page images without a commit record.
use dodb.Storage.Wal.Frame.{Frame, WalRecordType}
use dodb.Storage.Wal.Payload.{decode_page_image, validate_page_image}
use dodb.Storage.Wal.Batches.{
  BatchScan, max, open_batch, scan_page_image, scan_record, scan_frame, scan_frames,
}
use dodb.Core.Error.{corruption}
use dodb.Bytes.{U32}
use dodb.Prelude.{
  ℕ, ◌%◌, ◌==◌, ◌≡◌, ap, subst, ◌∙◌, List, [], ◌∷◌, ok, ok-injective, >>=-eq-ok, All, fail_if, leb,
  not, length,
}

module _ (crc32c : List ℕ → ℕ) where
  scan_page_image-committed :
      (scan next : BatchScan) (frame : Frame)
      → scan_page_image crc32c scan frame ≡ ok next
      → scan.committed ≡ next.committed
  unfolding scan_page_image
  scan_page_image-committed scan next frame h =
      let (page, decoded, h1) = >>=-eq-ok (decode_page_image frame.payload) _ h in
      let (done, valid, h2) = >>=-eq-ok (validate_page_image crc32c page) _ h1 in
      let (current, opened, h3) = >>=-eq-ok (open_batch scan frame) _ h2 in
      let (done', index, last) =
        >>=-eq-ok (fail_if (not (frame.record_index == length current.0.pages % U32)) corruption) _
          h3 in
      ap (λ (s : BatchScan). s.committed) (ok-injective last)

  -- A run of page images, as a crash before the commit record leaves them, adds no batch: if the
  -- scan of them goes well, the committed batches are those from before.
  pub scan_frames-committed :
      (history_start_lsn : ℕ) (scan next : BatchScan) (frames : List Frame)
      → All (λ (f : Frame). f.record_type ≡ WalRecordType.page_image) frames
      → scan_frames crc32c history_start_lsn scan frames ≡ ok next
      → scan.committed ≡ next.committed
  unfolding scan_frames scan_frame scan_record
  scan_frames-committed history_start_lsn scan next [] images h =
      ap (λ (s : BatchScan). s.committed) (ok-injective h)
  scan_frames-committed history_start_lsn scan next (frame ∷ frames) images h =
      let (middle, first, rest) = >>=-eq-ok (scan_frame crc32c history_start_lsn scan frame) _ h in
      let (done, later, record_ok) =
        >>=-eq-ok (fail_if (leb frame.record_lsn history_start_lsn) corruption) _ first in
      let counted = record scan { max_batch_id = max scan.max_batch_id frame.batch_id } in
      scan_page_image-committed counted middle frame
        (subst (λ t. scan_record crc32c counted frame t ≡ ok middle) images.0 record_ok)
      ∙ scan_frames-committed history_start_lsn middle next frames images.1 rest
