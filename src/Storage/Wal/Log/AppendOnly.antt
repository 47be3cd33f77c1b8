-- ===== src/Storage/Wal/Log/AppendOnly.antt =====
-- wal.rs: `append_group` on every outcome: what it does to the file, and to the rest of the log when
-- it fails.
use dodb.Core.Error.{Error, Result}
use dodb.Storage.Wal.Write.{WalCommit, WalAppendReport, append_group_commit}
use dodb.Storage.Wal.Write.Extends.{
  Extends, Extends-same, Extends-and_then, Extends-check, Extends-append_group_commit,
}
use dodb.Storage.Wal.Log.{WalLog, checked_suc}
use dodb.Storage.Wal.Log.Group.{Appended, synced, finish, append_commits, append_group}
use dodb.Prelude.{ℕ, ◌≡◌, refl, sym, ap, ◌∙◌, List, [], ◌∷◌, ◌++◌, append-nil, ok, err}

module _ (crc32c : List ℕ → ℕ) where
  pub Extends-append_commits :
      (version next_lsn next_batch_id : ℕ) (commits : List WalCommit) (file : List ℕ)
      → Extends file (append_commits crc32c version next_lsn next_batch_id commits file)
  unfolding append_commits
  Extends-append_commits version next_lsn next_batch_id [] file = Extends-same file (ok _)
  Extends-append_commits version next_lsn next_batch_id (commit ∷ commits) file =
      Extends-and_then (append_group_commit crc32c version commit next_lsn next_batch_id file) _
        (Extends-append_group_commit crc32c version commit next_lsn next_batch_id file)
        (λ middle report. Extends-check middle (checked_suc report.commit_lsn) _ (λ following_lsn.
          Extends-check middle (checked_suc next_batch_id) _ (λ following_batch_id.
            Extends-and_then
              (append_commits crc32c version following_lsn following_batch_id commits middle) _
              (Extends-append_commits version following_lsn following_batch_id commits middle)
              (λ end rest. Extends-same end (ok _)))))

  finish-file :
      (log : WalLog) (commits : List WalCommit) (r : List ℕ × Result Appended)
      → (finish log commits r).0.file ≡ r.0
  finish-file log commits (file, ok group) =
      elim (checked_suc log.sync_count) as (λ c. (synced log commits file group c).0.file ≡ file) [
        | ok count ↦ refl
        | err e ↦ refl
      ]
  finish-file log commits (file, err e) = refl

  finish-err :
      (log log' : WalLog) (commits : List WalCommit) (r : List ℕ × Result Appended) (e : Error)
      → finish log commits r ≡ (log', err e)
      → log' ≡ (record log { file = log'.file })
  finish-err log log' commits (file, ok group) e h = synced-err (checked_suc log.sync_count) h
    where
      synced-err :
          (c : Result ℕ)
          → synced log commits file group c ≡ (log', err e)
          → log' ≡ (record log { file = log'.file })
      synced-err (ok count) k = cc
      synced-err (err e') k =
          let same = ap (λ (out : WalLog × Result (List WalAppendReport)). out.0) k in
          sym same ∙ ap (λ (l : WalLog). record log { file = l.file }) same
  finish-err log log' commits (file, err e') e h =
      let same = ap (λ (out : WalLog × Result (List WalAppendReport)). out.0) h in
      sym same ∙ ap (λ (l : WalLog). record log { file = l.file }) same

  -- A group only appends: whatever commits it is given, and whether it succeeds or fails on the
  -- way, the file of the log afterwards is the file from before with bytes behind it.
  pub append_group-append_only :
      (log : WalLog) (commits : List WalCommit)
      → (more : List ℕ) × ((append_group crc32c log commits).0.file ≡ log.file ++ more)
  unfolding append_group
  append_group-append_only log [] = ([], sym (append-nil log.file))
  append_group-append_only log (commit ∷ commits) =
      let loop =
        append_commits crc32c log.format_version log.next_lsn log.next_batch_id (commit ∷ commits)
          log.file in
      let written =
        Extends-append_commits log.format_version log.next_lsn log.next_batch_id (commit ∷ commits)
          log.file in
      (written.more, finish-file log (commit ∷ commits) loop ∙ written.same)

  -- A group that fails publishes nothing: all of the log but its file, the committed batches, the
  -- next LSN, the next batch id and the counters, is as it was.
  pub append_group-failed :
      (log log' : WalLog) (commits : List WalCommit) (e : Error)
      → append_group crc32c log commits ≡ (log', err e)
      → log' ≡ (record log { file = log'.file })
  unfolding append_group
  append_group-failed log log' [] e h =
      let same = ap (λ (out : WalLog × Result (List WalAppendReport)). out.0) h in
      sym same ∙ ap (λ (l : WalLog). record log { file = l.file }) same
  append_group-failed log log' (commit ∷ commits) e h =
      finish-err log log' (commit ∷ commits)
        (append_commits crc32c log.format_version log.next_lsn log.next_batch_id (commit ∷ commits)
          log.file)
        e h
