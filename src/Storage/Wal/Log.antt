-- ===== src/Storage/Wal/Log.antt =====
-- crates/dodb-storage/src/wal.rs: the log, its scan and how it is opened. The file is the list of
-- its bytes and takes every write, truncation and sync; no fault injector is set, and the time spent
-- is not kept. Counts of records and pages in memory fit `usize`.
pub mod Group
mod Order
mod Grown
pub mod Loop
pub mod Preserved
pub mod Restarted
mod Last
pub mod Reopened
mod Torn
pub mod AppendOnly
pub mod Started
mod Crashed
pub mod Recovery
mod Tests
pub mod Holds
use dodb.Core.Error.{
  Result, invalid_input, corruption, checkpoint_failure, internal_invariant_violation,
}
use dodb.Bytes.{eq_bytes, U64}
use dodb.Storage.Wal.Frame.{Frame, WalRecordType, wal_format_version, encode_frame, append_frame}
use dodb.Storage.Wal.Scan.{read_frames}
use dodb.Storage.Wal.Payload.{WalIdentity, WalPageImage, identity_payload, verify_identity}
use dodb.Storage.Wal.Batches.{CommittedWalBatch, BatchScan, max, scan_frames}
use dodb.Prelude.{
  ℕ, suc, ◌+◌, ◌-◌, Bool, true, false, not, ◌||◌, ◌&&◌, List, [], ◌∷◌, ◌++◌, Option, none, some, ok,
  err, ◌>>=◌, ◌>>◌, fail_if, ◌==◌, leb, ltb, length, take, if◌then◌else◌,
}

pub record WalScanReport : Type 0 where
  pub records_scanned : ℕ
  pub committed_batches : ℕ
  pub replayable_pages : ℕ
  pub torn_tail_bytes : ℕ

-- `WalScanResult`
pub record WalScan : Type 0 where
  pub next_lsn : ℕ
  pub next_batch_id : ℕ
  pub format_version : ℕ
  pub history_start_lsn : ℕ
  pub committed : List CommittedWalBatch
  pub report : WalScanReport
  pub valid_length : ℕ

pub record WalLog : Type 0 where
  pub file : List ℕ
  pub identity : WalIdentity
  pub format_version : ℕ
  pub next_lsn : ℕ
  pub next_batch_id : ℕ
  pub history_start_lsn : ℕ
  pub committed : List CommittedWalBatch
  pub scan_report : WalScanReport
  pub sync_count : ℕ
  pub page_images : ℕ

-- `iter().map(|batch| batch.pages.len()).sum()`
abbrev pub count_pages : List CommittedWalBatch → ℕ
count_pages [] = 0
count_pages (batch ∷ batches) = length batch.pages + count_pages batches

abbrev pub record_is : WalRecordType → WalRecordType → Bool
record_is WalRecordType.init WalRecordType.init = true
record_is WalRecordType.page_image WalRecordType.page_image = true
record_is WalRecordType.commit WalRecordType.commit = true
record_is a b = false

-- `frames.first()`, with the frames behind it.
unfoldable pub split_first : List Frame → Result (Frame × List Frame)
split_first [] = err corruption
split_first (frame ∷ frames) = ok (frame, frames)

-- `previous_lsn` when the first loop is through.
abbrev pub last_lsn : ℕ → List Frame → ℕ
last_lsn lsn [] = lsn
last_lsn lsn (frame ∷ frames) = last_lsn frame.record_lsn frames

abbrev pub empty_scan : BatchScan
empty_scan = record { committed = []; pending = none; highest_batch_id_seen = 0; max_batch_id = 0 }

-- `checked_add(1)`
unfoldable pub checked_suc : ℕ → Result ℕ
checked_suc n = if ltb (U64 - 1) (suc n) then err internal_invariant_violation else ok (suc n)

-- The record that begins a log.
abbrev pub init_frame : WalIdentity → ℕ → Frame
init_frame identity start_after_lsn = record {
  format_version = wal_format_version;
  record_type = WalRecordType.init;
  record_lsn = 0;
  batch_id = 0;
  record_index = 0;
  payload = identity_payload identity start_after_lsn;
}

-- `resume_after`
unfoldable pub resume_after : WalLog → ℕ → Result WalLog
resume_after log checkpoint_lsn = do
  next_lsn ← checked_suc checkpoint_lsn
  ok (if ltb log.next_lsn next_lsn then record log { next_lsn = next_lsn } else log)

module _ (crc32c : List ℕ → ℕ) where
  unfoldable pub scan_wal : List ℕ → WalIdentity → Result WalScan
  scan_wal file identity = do
    (frames, valid_length) ← read_frames crc32c (length file) none none file
    (first, rest) ← split_first frames
    fail_if
        (not (record_is first.record_type WalRecordType.init)
          || (not (first.record_lsn == 0)
              || (not (first.batch_id == 0) || not (first.record_index == 0))))
        corruption
    history_start_lsn ← verify_identity first.format_version first.payload identity
    scan ← scan_frames crc32c history_start_lsn empty_scan rest
    next_lsn ← checked_suc (last_lsn first.record_lsn rest)
    next_batch_id ← checked_suc scan.max_batch_id
    ok (record {
      next_lsn = next_lsn;
      next_batch_id = max next_batch_id 1;
      format_version = first.format_version;
      history_start_lsn = history_start_lsn;
      committed = scan.committed;
      report = record {
        records_scanned = length frames;
        committed_batches = length scan.committed;
        replayable_pages = count_pages scan.committed;
        torn_tail_bytes = 0;
      };
      valid_length = valid_length;
    })

  unfoldable pub initialize_empty : WalIdentity → ℕ → Result WalLog
  initialize_empty identity start_after_lsn = do
    next_lsn ← checked_suc start_after_lsn
    (file, size) ← append_frame crc32c [] (init_frame identity start_after_lsn)
    ok (record {
      file = file;
      identity = identity;
      format_version = wal_format_version;
      next_lsn = next_lsn;
      next_batch_id = 1;
      history_start_lsn = start_after_lsn;
      committed = [];
      scan_report = record {
        records_scanned = 1;
        committed_batches = 0;
        replayable_pages = 0;
        torn_tail_bytes = 0;
      };
      sync_count = 1;
      page_images = 0;
    })

  -- `INIT_FRAME_SIZE`
  abbrev pub init_frame_size : ℕ
  init_frame_size = 104

  unfoldable pub is_torn_initialization_prefix : List ℕ → WalIdentity → ℕ → Result Bool
  is_torn_initialization_prefix file identity start_after_lsn = do
    expected ← encode_frame crc32c (init_frame identity start_after_lsn)
    ok (
        if leb (length expected) (length file)
        then false
        else eq_bytes file (take (length file) expected))

  -- `length < INIT_FRAME_SIZE && is_torn_initialization_prefix(...)?`
  unfoldable pub must_restart : List ℕ → WalIdentity → ℕ → Result Bool
  must_restart file identity start_after_lsn =
      if ltb (length file) init_frame_size
      then is_torn_initialization_prefix file identity start_after_lsn
      else ok false

  -- The scan, with the torn tail cut off.
  unfoldable pub open_scanned : List ℕ → WalIdentity → Result WalLog
  open_scanned file identity = do
    scan ← scan_wal file identity
    ok (record {
      file = take scan.valid_length file;
      identity = identity;
      format_version = scan.format_version;
      next_lsn = scan.next_lsn;
      next_batch_id = scan.next_batch_id;
      history_start_lsn = scan.history_start_lsn;
      committed = scan.committed;
      scan_report = record scan.report { torn_tail_bytes = length file - scan.valid_length };
      sync_count = 0;
      page_images = scan.report.replayable_pages;
    })

  -- `open_with_fault_injector_and_start_lsn`
  unfoldable pub open_log : List ℕ → WalIdentity → ℕ → Result WalLog
  open_log file identity start_after_lsn =
      if length file == 0 then initialize_empty identity start_after_lsn else (do
        restart ← must_restart file identity start_after_lsn
        if restart then initialize_empty identity start_after_lsn else open_scanned file identity)
