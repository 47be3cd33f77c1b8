-- ===== src/Storage/Wal/Log/Restarted.antt =====
-- wal.rs: `reset` leaves a log in order.
use dodb.Core.Error.{Result, checkpoint_failure}
use dodb.Storage.Wal.Frame.{append_frame}
use dodb.Storage.Wal.Scan.Appended.{append_frame-frame_bytes}
use dodb.Storage.Wal.Payload.RoundTrip.{IsIdentity}
use dodb.Storage.Wal.Log.{WalLog, init_frame, checked_suc}
use dodb.Storage.Wal.Log.Group.{emptied, reset_synced, reinitialized, truncated, reset}
use dodb.Storage.Wal.Log.Holds.{IsLog}
use dodb.Storage.Wal.Log.Loop.{checked_suc-ok}
use dodb.Storage.Wal.Log.Preserved.{init-Holds}
use dodb.Prelude.{
  ℕ, ◌≤◌, ◌≡◌, refl, subst, ap, if◌then◌else◌, inl, inr, List, [], ok, err, ltb, Bool-cases, arith,
}

module _ (crc32c : List ℕ → ℕ) where
  reset_synced-ok :
      (log log' : WalLog) (file : List ℕ) (synced_count : Result ℕ)
      → reset_synced log file synced_count ≡ (log', ok tt)
      → (count : ℕ) × ((record log { file = file; sync_count = count }) ≡ log')
  reset_synced-ok log log' file (ok count) h =
      (count, ap (λ (out : WalLog × Result (Unit {0})). out.0) h)
  reset_synced-ok log log' file (err e) h = cc

  reinitialized-ok :
      (log log' : WalLog) (written : Result (List ℕ × ℕ))
      → reinitialized log written ≡ (log', ok tt)
      → (out : List ℕ × ℕ) × (count : ℕ) × (written ≡ ok out)
        × ((record log { file = out.0; sync_count = count }) ≡ log')
  reinitialized-ok log log' (ok (file, size)) h =
      let (count, same) = reset_synced-ok log log' file (checked_suc log.sync_count) h in
      ((file, size), count, refl, same)
  reinitialized-ok log log' (err e) h = cc

  truncated-ok :
      (log log' : WalLog) (checkpoint_lsn : ℕ) (next : Result ℕ)
      → truncated crc32c log checkpoint_lsn next ≡ (log', ok tt)
      → (next_lsn : ℕ) × (out : List ℕ × ℕ) × (count : ℕ) × (next ≡ ok next_lsn)
        × (append_frame crc32c [] (init_frame log.identity checkpoint_lsn) ≡ ok out)
        × ((record (emptied log checkpoint_lsn next_lsn) { file = out.0; sync_count = count })
            ≡ log')
  truncated-ok log log' checkpoint_lsn (ok next_lsn) h =
      let (out, count, written, same) =
        reinitialized-ok (emptied log checkpoint_lsn next_lsn) log' _ h in
      (next_lsn, out, count, refl, written, same)
  truncated-ok log log' checkpoint_lsn (err e) h = cc

  -- After a `reset` that succeeds, on a log whose identity is in range, in whatever order its file
  -- is, the log is in order with no committed batch and a history that starts at the checkpoint,
  -- and the checkpoint was no earlier than the start of the history before.
  pub reset-IsLog :
      (log log' : WalLog) (checkpoint_lsn : ℕ)
      → IsIdentity log.identity
      → reset crc32c log checkpoint_lsn ≡ (log', ok tt)
      → IsLog crc32c log'
        × (log.history_start_lsn ≤ checkpoint_lsn)
        × (log'.committed ≡ [])
        × (log'.history_start_lsn ≡ checkpoint_lsn)
  unfolding reset
  reset-IsLog log log' checkpoint_lsn valid h =
      elim (Bool-cases (ltb checkpoint_lsn log.history_start_lsn)) [
        | inl backwards ↦
            let bad : ◌≡◌ {A = WalLog × Result (Unit {0})} (log, err checkpoint_failure)
                (log', ok tt) =
              subst
                (λ b.
                  (if b
                    then (log, err checkpoint_failure)
                    else truncated crc32c log checkpoint_lsn (checked_suc checkpoint_lsn))
                  ≡ (log', ok tt))
                backwards h in
            let worse = ap (λ (out : WalLog × Result (Unit {0})). out.1) bad in absurd cc
        | inr forwards ↦
            let (next_lsn, out, count, next_ok, written, same) =
              truncated-ok log log' checkpoint_lsn (checked_suc checkpoint_lsn) (
                subst
                  (λ b.
                    (if b
                      then (log, err checkpoint_failure)
                      else truncated crc32c log checkpoint_lsn (checked_suc checkpoint_lsn))
                    ≡ (log', ok tt))
                  forwards h) in
            let (lsn_eq, lsn_u64) = checked_suc-ok checkpoint_lsn next_lsn next_ok in
            subst
              (λ (l : WalLog).
                IsLog crc32c l
                × (log.history_start_lsn ≤ checkpoint_lsn)
                × (l.committed ≡ [])
                × (l.history_start_lsn ≡ checkpoint_lsn))
              same
              (
                init-Holds crc32c log.identity checkpoint_lsn next_lsn out.0 valid (omega arith)
                    lsn_u64
                    (append_frame-frame_bytes crc32c [] (init_frame log.identity checkpoint_lsn) out
                      written),
                ground arith,
                refl,
                refl,
              )
      ]
