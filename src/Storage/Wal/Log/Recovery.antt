-- ===== src/Storage/Wal/Log/Recovery.antt =====
-- wal.rs: `open` after a crash in the middle of `append_group`.
use dodb.Bytes.{U32, U64}
use dodb.Storage.Wal.Write.{WalCommit, WalAppendReport}
use dodb.Storage.Wal.Log.{WalLog, open_log}
use dodb.Storage.Wal.Log.Group.{committed_of, append_commits, append_group}
use dodb.Storage.Wal.Log.Holds.{IsLog}
use dodb.Storage.Wal.Log.Loop.{IsCommit}
use dodb.Storage.Wal.Log.Preserved.{finish-ok}
use dodb.Storage.Wal.Log.Reopened.{reopened}
use dodb.Storage.Wal.Log.Crashed.{Cut, append_commits-Cut}
use dodb.Prelude.{
  ℕ, ◌<◌, ◌≤◌, ◌≡◌, sym, subst, List, [], ◌∷◌, ◌++◌, map, ok, length, take, All, arith,
}

module _ (crc32c : List ℕ → ℕ) (crc_u32 : (bytes : List ℕ) → crc32c bytes < U32) (log : WalLog)
    (version_2 : log.format_version ≡ 2) (start : ℕ) where
  open_log-Cut :
      (cut : List ℕ) (batches : _)
      → Cut crc32c crc_u32 log.identity log.format_version log.history_start_lsn cut batches
      → (opened : WalLog) × (open_log crc32c cut log.identity start ≡ ok opened)
        × (opened.committed ≡ batches)
  open_log-Cut cut batches c =
      let (opened, resumed, open_ok, same_file, same, r5, r6, r7, r8, r9, r10) =
        reopened crc32c crc_u32 log.identity log.format_version log.history_start_lsn c.file
          c.next_lsn c.next_batch_id batches c.holds c.lsn_u64 c.torn c.is_torn c.torn_version c.n
          c.short start log.history_start_lsn version_2 (omega arith)
          (omega (arith, c.holds.after_history, c.lsn_u64)) in
      (
        opened,
        subst (λ f. open_log crc32c f log.identity start ≡ ok opened) (sym c.cut_eq) open_ok,
        same,
      )

-- Crash safety of a group: if the checksum function returns 32-bit values, the log is in order and
-- of the current version, its next LSN is below 2 ^ 64, and `append_group` of commits in range
-- succeeds on it, then `open` of any part of the resulting file that keeps the bytes from before
-- succeeds, and finds the batches from before and behind them the first commits of the group, up to
-- some point.
pub append_group-open_log :
    (crc32c : List ℕ → ℕ) (log log' : WalLog) (commits : List WalCommit)
    (reports : List WalAppendReport) (n start : ℕ)
    → ((bytes : List ℕ) → crc32c bytes < U32)
    → IsLog crc32c log
    → log.format_version ≡ 2
    → log.next_lsn < U64
    → All IsCommit commits
    → append_group crc32c log commits ≡ (log', ok reports)
    → length log.file ≤ n
    → (k : ℕ) × (opened : WalLog) × (open_log crc32c (take n log'.file) log.identity start
        ≡ ok opened)
      × (opened.committed ≡ log.committed ++ take k (map committed_of commits))
unfolding append_group
append_group-open_log crc32c log log' [] reports n start crc_u32 h version_2 lsn_u64 shapes appended
      past =
    cc
append_group-open_log crc32c log log' (commit ∷ commits) reports n start crc_u32 h version_2 lsn_u64
      shapes appended past =
    let loop =
      append_commits crc32c log.format_version log.next_lsn log.next_batch_id (commit ∷ commits)
        log.file in
    let (group, count, looped, same) =
      finish-ok crc32c log log' (commit ∷ commits) loop reports appended in
    let (k, cut) =
      append_commits-Cut crc32c crc_u32 log.identity log.format_version log.history_start_lsn
        (commit ∷ commits) log.next_lsn log.next_batch_id n log.file loop.0 group log.committed
        shapes looped h lsn_u64 past in
    let (opened, open_ok, recovered) =
      open_log-Cut crc32c crc_u32 log version_2 start (take n log'.file)
        (log.committed ++ take k (map committed_of (commit ∷ commits)))
        (subst
          (λ (l : WalLog).
            Cut crc32c crc_u32 log.identity log.format_version log.history_start_lsn (take n l.file)
              (log.committed ++ take k (map committed_of (commit ∷ commits))))
          same cut) in
    (k, opened, open_ok, recovered)
