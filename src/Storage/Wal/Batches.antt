-- ===== src/Storage/Wal/Batches.antt =====
-- crates/dodb-storage/src/wal.rs: the second loop of `scan_wal`, which collects the committed
-- batches from the frames.
pub mod Uncommitted
pub mod Recovered
use dodb.Core.Error.{Result, corruption, internal_invariant_violation}
use dodb.Bytes.{U32, U64}
use dodb.Storage.Wal.Frame.{Frame, WalRecordType}
use dodb.Storage.Wal.Scan.{read_frames}
use dodb.Storage.Wal.Payload.{
  WalIdentity, WalPageImage, verify_identity, validate_page_image, validate_page_image_lsn,
  decode_page_image, decode_commit_payload,
}
use dodb.Prelude.{
  ℕ, zero, suc, ◌+◌, ◌-◌, ◌%◌, Bool, true, false, not, ◌||◌, List, [], ◌∷◌, ◌++◌, Option, none,
  some, ok, err, ◌>>=◌, ◌>>◌, fail_if, ◌==◌, leb, ltb, length, if◌then◌else◌,
}

pub record CommittedWalBatch : Type 0 where
  pub batch_id : ℕ
  pub commit_lsn : ℕ
  pub pages : List WalPageImage

pub record PendingBatch : Type 0 where
  pub batch_id : ℕ
  pub first_record_lsn : ℕ
  pub pages : List WalPageImage
  pub digest_input : List ℕ

-- The variables of the loop.
pub record BatchScan : Type 0 where
  pub committed : List CommittedWalBatch
  pub pending : Option PendingBatch
  pub highest_batch_id_seen : ℕ
  pub max_batch_id : ℕ

abbrev pub max : ℕ → ℕ → ℕ
max a b = if leb a b then b else a

abbrev pub new_batch : Frame → PendingBatch
new_batch frame = record {
  batch_id = frame.batch_id;
  first_record_lsn = frame.record_lsn;
  pages = [];
  digest_input = [];
}

-- No batch is pending, or one with another id.
abbrev pub is_other_batch : Option PendingBatch → ℕ → Bool
is_other_batch none batch_id = true
is_other_batch (some pending) batch_id = not (pending.batch_id == batch_id)

-- The batch that the page image belongs to, and the highest batch id seen.
unfoldable pub open_batch : BatchScan → Frame → Result (PendingBatch × ℕ)
open_batch scan frame = elim scan.pending [
  | none ↦ do
    fail_if (leb frame.batch_id scan.highest_batch_id_seen) corruption
    ok (new_batch frame, frame.batch_id)
  | some pending ↦
      if not (pending.batch_id == frame.batch_id)
      then (do
        fail_if (leb frame.batch_id scan.highest_batch_id_seen) corruption
        ok (new_batch frame, frame.batch_id))
      else ok (pending, scan.highest_batch_id_seen)
]

unfoldable pub take_pending : Option PendingBatch → Result PendingBatch
take_pending none = err corruption
take_pending (some pending) = ok pending

-- The loop over the pages of the batch.
unfoldable pub validate_lsns : List WalPageImage → ℕ → Result (Unit {0})
validate_lsns [] commit_lsn = ok tt
validate_lsns (page ∷ pages) commit_lsn = do
  validate_page_image_lsn page commit_lsn
  validate_lsns pages commit_lsn

module _ (crc32c : List ℕ → ℕ) where
  unfoldable pub scan_page_image : BatchScan → Frame → Result BatchScan
  scan_page_image scan frame = do
    page ← decode_page_image frame.payload
    validate_page_image crc32c page
    (current, highest) ← open_batch scan frame
    fail_if (not (frame.record_index == length current.pages % U32)) corruption
    ok (record scan {
      pending = some (record current {
        pages = current.pages ++ (page ∷ []);
        digest_input = current.digest_input ++ frame.payload;
      });
      highest_batch_id_seen = highest;
    })

  unfoldable pub scan_commit : BatchScan → Frame → Result BatchScan
  scan_commit scan frame = do
    current ← take_pending scan.pending
    fail_if
        (not (current.batch_id == frame.batch_id)
          || not (frame.record_index == length current.pages % U32))
        corruption
    (first_lsn, page_count, digest) ← decode_commit_payload frame.payload
    fail_if
        (not (first_lsn == current.first_record_lsn)
          || (not (page_count == length current.pages)
              || not (crc32c current.digest_input == digest)))
        corruption
    validate_lsns current.pages frame.record_lsn
    ok (record scan {
      committed =
          scan.committed
          ++ (record {
            batch_id = frame.batch_id;
            commit_lsn = frame.record_lsn;
            pages = current.pages;
          }
              ∷ []);
      pending = none;
    })

  -- The `match` on the record type.
  unfoldable pub scan_record : BatchScan → Frame → WalRecordType → Result BatchScan
  scan_record scan frame WalRecordType.init = err corruption
  scan_record scan frame WalRecordType.page_image = scan_page_image scan frame
  scan_record scan frame WalRecordType.commit = scan_commit scan frame

  unfoldable pub scan_frame : ℕ → BatchScan → Frame → Result BatchScan
  scan_frame history_start_lsn scan frame = do
    fail_if (leb frame.record_lsn history_start_lsn) corruption
    scan_record (record scan { max_batch_id = max scan.max_batch_id frame.batch_id }) frame
        frame.record_type

  unfoldable pub scan_frames : ℕ → BatchScan → List Frame → Result BatchScan
  scan_frames history_start_lsn scan [] = ok scan
  scan_frames history_start_lsn scan (frame ∷ frames) = do
    next ← scan_frame history_start_lsn scan frame
    scan_frames history_start_lsn next frames
