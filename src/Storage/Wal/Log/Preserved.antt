-- ===== src/Storage/Wal/Log/Preserved.antt =====
-- wal.rs: the operations of the log keep it in order.
use dodb.Core.Error.{Result}
use dodb.Bytes.{U32, U64}
use dodb.Storage.Wal.Frame.{append_frame}
use dodb.Storage.Wal.Scan.Frames.{frame_bytes}
use dodb.Storage.Wal.Scan.Appended.{log_bytes, append_frame-frame_bytes}
use dodb.Storage.Wal.Payload.{WalIdentity}
use dodb.Storage.Wal.Payload.RoundTrip.{
  IsIdentity, verify_identity-identity_payload, length-identity_payload,
}
use dodb.Storage.Wal.Batches.{scan_frames}
use dodb.Storage.Wal.Write.{WalCommit, WalAppendReport}
use dodb.Storage.Wal.Log.{WalLog, resume_after, init_frame, checked_suc, initialize_empty}
use dodb.Storage.Wal.Log.Group.{
  Appended, committed_of, append_commits, synced, finish, append_group, publish,
}
use dodb.Storage.Wal.Log.Holds.{Holds, Holds-le, IsLog}
use dodb.Storage.Wal.Log.Loop.{IsCommit, checked_suc-ok, append_commits-Holds}
use dodb.Prelude.{
  ℕ, ◌<◌, ◌≡◌, refl, sym, subst, ap, ◌∙◌, inl, inr, List, [], ◌∷◌, ◌++◌, map, append-nil, none, ok,
  err, ltb, All, ok-injective, >>=-eq-ok, Bool-cases, arith,
}

module _ (crc32c : List ℕ → ℕ) where
  pub init-Holds :
      (identity : WalIdentity) (start next_lsn : ℕ) (file : List ℕ)
      → IsIdentity identity
      → start < next_lsn
      → next_lsn < U64
      → [] ++ frame_bytes crc32c (init_frame identity start) ≡ file
      → Holds crc32c identity 2 start file next_lsn 1 []
  unfolding log_bytes scan_frames
  init-Holds identity start next_lsn file valid later lsn_u64 written = record {
    first = init_frame identity start;
    rest = [];
    pending = none;
    highest = 0;
    max_id = 0;
    bytes = sym written ∙ sym (append-nil (frame_bytes crc32c (init_frame identity start)));
    is_init = record {
      is_init = refl;
      lsn = refl;
      batch = refl;
      index = refl;
      accepted = verify_identity-identity_payload identity start valid (omega arith);
    };
    version_ok = inr refl;
    frames = (
      record {
        version = inr refl;
        lsn_u64 = omega arith;
        batch_u64 = omega arith;
        index_u32 = omega arith;
        size = omega (arith, length-identity_payload identity start valid);
      },
      tt,
    );
    versions = (refl, tt);
    order = (tt, tt);
    below = (omega arith, tt);
    after_history = later;
    scanned = refl;
    highest_below = omega arith;
    next_batch = omega arith;
    batch_u64 = omega arith;
    other = refl;
  }

  pub initialize_empty-IsLog :
      (identity : WalIdentity) (start : ℕ) (log : WalLog)
      → IsIdentity identity
      → initialize_empty crc32c identity start ≡ ok log
      → IsLog crc32c log
  unfolding initialize_empty
  initialize_empty-IsLog identity start log valid h =
      let (next_lsn, next_ok, h1) = >>=-eq-ok (checked_suc start) _ h in
      let (out, written, last) =
        >>=-eq-ok (append_frame crc32c [] (init_frame identity start)) _ h1 in
      let (lsn_eq, lsn_u64) = checked_suc-ok start next_lsn next_ok in
      subst (IsLog crc32c) (ok-injective last) (
        init-Holds identity start next_lsn out.0 valid (omega arith) lsn_u64
          (append_frame-frame_bytes crc32c [] (init_frame identity start) out written))

  pub resume_after-IsLog :
      (log log' : WalLog) (checkpoint_lsn : ℕ)
      → IsLog crc32c log
      → resume_after log checkpoint_lsn ≡ ok log'
      → IsLog crc32c log' × (checkpoint_lsn < log'.next_lsn) × (log'.committed ≡ log.committed)
  unfolding resume_after
  resume_after-IsLog log log' checkpoint_lsn holds h =
      let (next_lsn, next_ok, last) = >>=-eq-ok (checked_suc checkpoint_lsn) _ h in
      let (lsn_eq, lsn_u64) = checked_suc-ok checkpoint_lsn next_lsn next_ok in
      subst
        (λ (l : WalLog).
          IsLog crc32c l × (checkpoint_lsn < l.next_lsn) × (l.committed ≡ log.committed))
        (ok-injective last)
        (elim (Bool-cases (ltb log.next_lsn next_lsn)) [
          | inl less ↦ rw less (
            Holds-le crc32c log.identity log.format_version log.history_start_lsn log.file
                log.next_lsn next_lsn log.next_batch_id log.committed (ground arith) holds,
            omega arith,
            refl,
          )
          | inr enough ↦ rw enough (holds, ground arith, refl)
        ])

  -- What a group that went well has done.
  synced-ok :
      (log log' : WalLog) (commits : List WalCommit) (file : List ℕ) (group : Appended)
      (synced_count : Result ℕ) (reports : List WalAppendReport)
      → synced log commits file group synced_count ≡ (log', ok reports)
      → (count : ℕ) × (publish log file count group commits ≡ log')
  synced-ok log log' commits file group (ok count) reports h =
      (count, ap (λ (out : WalLog × Result (List WalAppendReport)). out.0) h)
  synced-ok log log' commits file group (err e) reports h = cc

  pub finish-ok :
      (log log' : WalLog) (commits : List WalCommit) (r : List ℕ × Result Appended)
      (reports : List WalAppendReport)
      → finish log commits r ≡ (log', ok reports)
      → (group : Appended) × (count : ℕ) × (r ≡ (r.0, ok group))
        × (publish log r.0 count group commits ≡ log')
  finish-ok log log' commits (file, ok group) reports h =
      let (count, same) =
        synced-ok log log' commits file group (checked_suc log.sync_count) reports h in
      (group, count, refl, same)
  finish-ok log log' commits (file, err e) reports h = cc

  module _ (crc_u32 : (bytes : List ℕ) → crc32c bytes < U32) where
    -- A group that is appended is what the log holds: if the checksum function returns 32-bit
    -- values, the fields of the commits are in range, the log is in order, its file a valid log
    -- whose scan finds its committed batches, and `append_group` succeeds, then the log is in order
    -- again, and its committed batches are those from before and behind them those of the group, in
    -- order.
    pub append_group-IsLog :
        (log log' : WalLog) (commits : List WalCommit) (reports : List WalAppendReport)
        → All IsCommit commits
        → IsLog crc32c log
        → append_group crc32c log commits ≡ (log', ok reports)
        → IsLog crc32c log' × (log'.committed ≡ log.committed ++ map committed_of commits)
    unfolding append_group
    append_group-IsLog log log' [] reports shapes holds h = cc
    append_group-IsLog log log' (commit ∷ commits) reports shapes holds h =
        let loop =
          append_commits crc32c log.format_version log.next_lsn log.next_batch_id (commit ∷ commits)
            log.file in
        let (group, count, appended, same) = finish-ok log log' (commit ∷ commits) loop reports h in
        let (holds', added) =
          append_commits-Holds crc32c crc_u32 log.identity log.format_version log.history_start_lsn
            (commit ∷ commits) log.next_lsn log.next_batch_id log.file loop.0 group log.committed
            shapes appended holds in
        let listed = ap (λ l. log.committed ++ l) added in
        subst
          (λ (l : WalLog).
            IsLog crc32c l × (l.committed ≡ log.committed ++ map committed_of (commit ∷ commits)))
          same
          (
            subst
                (λ l.
                  Holds crc32c log.identity log.format_version log.history_start_lsn loop.0
                    group.next_lsn group.next_batch_id l)
                (sym listed) holds',
            listed,
          )
