-- ===== src/Storage/Wal/Log/Group.antt =====
-- crates/dodb-storage/src/wal.rs: `append_group`, `append_commit` and `reset`. An
-- operation returns the log as it leaves it, also when it fails.
use dodb.Core.Error.{Result, invalid_input, checkpoint_failure}
use dodb.Storage.Wal.Frame.{wal_format_version, append_frame}
use dodb.Storage.Wal.Payload.{WalPageImage}
use dodb.Storage.Wal.Batches.{CommittedWalBatch}
use dodb.Storage.Wal.Write.{WalCommit, WalAppendReport, is_empty, append_group_commit}
use dodb.Storage.Wal.Write.Steps.{Write, ◌>>=◌, lift, done}
use dodb.Storage.Wal.Log.{WalLog, init_frame, checked_suc}
use dodb.Prelude.{
  ℕ, ◌+◌, List, [], ◌∷◌, ◌++◌, Option, ok, err, ltb, length, get_elem?, if◌then◌else◌,
}

-- What a group has appended: the next LSN, the next batch id, the reports and the batches.
pub record Appended : Type 0 where
  pub next_lsn : ℕ
  pub next_batch_id : ℕ
  pub reports : List WalAppendReport
  pub committed : List CommittedWalBatch

abbrev pub committed_of : WalCommit → CommittedWalBatch
committed_of commit = record {
  batch_id = commit.batch_id;
  commit_lsn = commit.commit_lsn;
  pages = commit.pages;
}

-- `commits.iter().map(|commit| commit.pages.len()).sum()`
abbrev pub sum_pages : List WalCommit → ℕ
sum_pages [] = 0
sum_pages (commit ∷ commits) = length commit.pages + sum_pages commits

-- `record_count` of a group.
abbrev pub sum_records : List WalCommit → ℕ
sum_records [] = 0
sum_records (commit ∷ commits) = length commit.pages + 1 + sum_records commits

-- What `append_group` sets once the file is synced.
abbrev pub publish : WalLog → List ℕ → ℕ → Appended → List WalCommit → WalLog
publish log file sync_count group commits = record log {
  file = file;
  sync_count = sync_count;
  committed = log.committed ++ group.committed;
  next_lsn = group.next_lsn;
  next_batch_id = group.next_batch_id;
  scan_report = record log.scan_report {
    records_scanned = log.scan_report.records_scanned + sum_records commits;
    committed_batches = log.scan_report.committed_batches + length commits;
    replayable_pages = log.scan_report.replayable_pages + sum_pages commits;
  };
  page_images = log.page_images + sum_pages commits;
}

-- What follows the sync.
abbrev pub synced :
    WalLog → List WalCommit → List ℕ → Appended → Result ℕ → WalLog × Result (List WalAppendReport)
synced log commits file group (ok sync_count) =
    (publish log file sync_count group commits, ok group.reports)
synced log commits file group (err e) = (record log { file = file }, err e)

abbrev pub finish :
    WalLog → List WalCommit → List ℕ × Result Appended → WalLog × Result (List WalAppendReport)
finish log commits (file, ok group) = synced log commits file group (checked_suc log.sync_count)
finish log commits (file, err e) = (record log { file = file }, err e)

abbrev pub first_report :
    WalLog × Result (List WalAppendReport) → WalLog × Result (Option WalAppendReport)
first_report (log, ok reports) = (log, ok (get_elem? reports 0))
first_report (log, err e) = (log, err e)

-- `reset` once the file is empty, up to the new first frame.
abbrev pub restarted : WalLog → ℕ → WalLog
restarted log checkpoint_lsn = record log {
  file = [];
  history_start_lsn = checkpoint_lsn;
  format_version = wal_format_version;
}

abbrev pub emptied : WalLog → ℕ → ℕ → WalLog
emptied log checkpoint_lsn next_lsn = record (restarted log checkpoint_lsn) {
  next_lsn = next_lsn;
  next_batch_id = 1;
  committed = [];
  scan_report = record {
    records_scanned = 1;
    committed_batches = 0;
    replayable_pages = 0;
    torn_tail_bytes = 0;
  };
  page_images = 0;
}

abbrev pub reset_synced : WalLog → List ℕ → Result ℕ → WalLog × Result (Unit {0})
reset_synced log file (ok sync_count) = (record log { file = file; sync_count = sync_count }, ok tt)
reset_synced log file (err e) = (record log { file = file }, err e)

-- What follows the write of the first frame.
abbrev pub reinitialized : WalLog → Result (List ℕ × ℕ) → WalLog × Result (Unit {0})
reinitialized log (ok (file, size)) = reset_synced log file (checked_suc log.sync_count)
reinitialized log (err e) = (log, err e)

module _ (crc32c : List ℕ → ℕ) where
  -- The loop over the commits of a group.
  unfoldable pub append_commits : ℕ → ℕ → ℕ → List WalCommit → Write Appended
  append_commits version next_lsn next_batch_id [] =
      done (record {
        next_lsn = next_lsn;
        next_batch_id = next_batch_id;
        reports = [];
        committed = [];
      })
  append_commits version next_lsn next_batch_id (commit ∷ commits) = do
    report ← append_group_commit crc32c version commit next_lsn next_batch_id
    following_lsn ← lift (checked_suc report.commit_lsn)
    following_batch_id ← lift (checked_suc next_batch_id)
    rest ← append_commits version following_lsn following_batch_id commits
    done (record rest {
      reports = report ∷ rest.reports;
      committed = committed_of commit ∷ rest.committed;
    })

  unfoldable pub append_group : WalLog → List WalCommit → WalLog × Result (List WalAppendReport)
  append_group log commits =
      if is_empty commits
      then (log, err invalid_input)
      else finish log commits
          (append_commits log.format_version log.next_lsn log.next_batch_id commits log.file)

  -- `reports.remove(0)` panics on an empty list, which is `none` here.
  unfoldable pub append_commit :
      WalLog → ℕ → ℕ → List WalPageImage → WalLog × Result (Option WalAppendReport)
  append_commit log batch_id commit_lsn pages = first_report (
      append_group log
        (record { batch_id = batch_id; commit_lsn = commit_lsn; pages = pages } ∷ []))

  -- What follows the truncation, with the next LSN.
  abbrev pub truncated : WalLog → ℕ → Result ℕ → WalLog × Result (Unit {0})
  truncated log checkpoint_lsn (ok next_lsn) =
      reinitialized (emptied log checkpoint_lsn next_lsn)
        (append_frame crc32c [] (init_frame log.identity checkpoint_lsn))
  truncated log checkpoint_lsn (err e) = (restarted log checkpoint_lsn, err e)

  unfoldable pub reset : WalLog → ℕ → WalLog × Result (Unit {0})
  reset log checkpoint_lsn =
      if ltb checkpoint_lsn log.history_start_lsn
      then (log, err checkpoint_failure)
      else truncated log checkpoint_lsn (checked_suc checkpoint_lsn)
