-- ===== src/Storage/Wal/Log/Loop.antt =====
-- wal.rs: the loop of `append_group`, on a log that holds its batches.
use dodb.Core.Error.{Result}
use dodb.Bytes.{U32, U64}
use dodb.Storage.Wal.Payload.{WalIdentity}
use dodb.Storage.Wal.Payload.RoundTrip.{IsPageImage}
use dodb.Storage.Wal.Batches.{CommittedWalBatch}
use dodb.Storage.Wal.Write.{WalCommit, WalAppendReport, append_group_commit}
use dodb.Storage.Wal.Write.Steps.{and_then-eq-ok}
use dodb.Storage.Wal.Write.Written.{CommitWritten, append_group_commit-ok}
use dodb.Storage.Wal.Log.{checked_suc}
use dodb.Storage.Wal.Log.Group.{Appended, committed_of, append_commits}
use dodb.Storage.Wal.Log.Holds.{Holds}
use dodb.Storage.Wal.Log.Grown.{CommitWritten-Holds}
use dodb.Prelude.{
  ℕ, suc, ◌<◌, ◌≡◌, sym, subst, ap, ap₂, ◌∙◌, List, [], ◌∷◌, ◌++◌, map, append_assoc, append-nil,
  ok, All, ok-injective, arith,
}

pub checked_suc-ok : (n m : ℕ) → checked_suc n ≡ ok m → (m ≡ suc n) × (m < U64)
unfolding checked_suc
checked_suc-ok n m h = ground arith

-- The fields of a commit are in the range of their types.
pub record IsCommit (commit : WalCommit) : Type 0 where
  pub batch_u64 : commit.batch_id < U64
  pub images : All IsPageImage commit.pages

module _ (crc32c : List ℕ → ℕ) (crc_u32 : (bytes : List ℕ) → crc32c bytes < U32)
    (identity : WalIdentity) (version history : ℕ) where
  abbrev pub HoldsAt : List ℕ → ℕ → ℕ → List CommittedWalBatch → Type 0
  HoldsAt file next_lsn next_batch_id committed =
      Holds crc32c identity version history file next_lsn next_batch_id committed

  pub append_group_commit-Holds :
      (commit : WalCommit) (first_lsn expected : ℕ) (file file' : List ℕ) (report : WalAppendReport)
      (committed : List CommittedWalBatch)
      → IsCommit commit
      → append_group_commit crc32c version commit first_lsn expected file ≡ (file', ok report)
      → HoldsAt file first_lsn expected committed
      → suc expected < U64
      → HoldsAt file'
          (suc report.commit_lsn)
          (suc expected)
          (committed ++ (committed_of commit ∷ []))
  append_group_commit-Holds commit first_lsn expected file file' report committed shapes written h
        batch_u64 =
      let w =
        append_group_commit-ok crc32c version h.version_ok commit first_lsn expected file file'
          report shapes.batch_u64 shapes.images written in
      subst (λ l. HoldsAt file' (suc l) (suc expected) (committed ++ (committed_of commit ∷ [])))
        (sym w.reported)
        (subst
          (λ b.
            CommitWritten crc32c version h.version_ok commit first_lsn b file file' report
            → HoldsAt file first_lsn b committed
            → suc b < U64
            → HoldsAt file' (suc commit.commit_lsn) (suc b)
                (committed ++ (committed_of commit ∷ [])))
          w.batch
          (CommitWritten-Holds crc32c crc_u32 identity version history h.version_ok commit first_lsn
            file file' report committed)
          w h batch_u64)

  -- One round of the loop.
  pub record Round (commit : WalCommit) (commits : List WalCommit) (next_lsn next_batch_id : ℕ)
      (file file' : List ℕ) (out : Appended) : Type 0 where
    pub report : WalAppendReport
    pub middle : List ℕ
    pub rest : Appended
    pub written :
        append_group_commit crc32c version commit next_lsn next_batch_id file ≡ (middle, ok report)
    pub lsn_u64 : suc report.commit_lsn < U64
    pub batch_u64 : suc next_batch_id < U64
    pub looped :
        append_commits crc32c version (suc report.commit_lsn) (suc next_batch_id) commits middle
        ≡ (file', ok rest)
    pub same :
        (record rest {
          reports = report ∷ rest.reports;
          committed = committed_of commit ∷ rest.committed;
        })
        ≡ out

  pub append_commits-Round :
      (commit : WalCommit) (commits : List WalCommit) (next_lsn next_batch_id : ℕ)
      (file file' : List ℕ) (out : Appended)
      → append_commits crc32c version next_lsn next_batch_id (commit ∷ commits) file
        ≡ (file', ok out)
      → Round commit commits next_lsn next_batch_id file file' out
  unfolding append_commits
  append_commits-Round commit commits next_lsn next_batch_id file file' out h =
      let (report, written, h1) =
        and_then-eq-ok (append_group_commit crc32c version commit next_lsn next_batch_id file) _
          h in
      let middle = (append_group_commit crc32c version commit next_lsn next_batch_id file).0 in
      let (following_lsn, lsn_ok, h2) =
        and_then-eq-ok (middle, checked_suc report.commit_lsn) _ h1 in
      let (following_id, id_ok, h3) = and_then-eq-ok (middle, checked_suc next_batch_id) _ h2 in
      let (rest, loop_ok, h4) =
        and_then-eq-ok (append_commits crc32c version following_lsn following_id commits middle) _
          h3 in
      let (lsn_eq, lsn_u64) = checked_suc-ok report.commit_lsn following_lsn lsn_ok in
      let (id_eq, id_u64) = checked_suc-ok next_batch_id following_id id_ok in
      let end = (append_commits crc32c version following_lsn following_id commits middle).0 in
      let same_file : end ≡ file' = ap (λ (r : List ℕ × Result Appended). r.0) h4 in
      record {
        report = report;
        middle = middle;
        rest = rest;
        written = λ i. (middle, written i);
        lsn_u64 = omega arith;
        batch_u64 = omega arith;
        looped =
            ap₂ (λ l b. append_commits crc32c version l b commits middle) (sym lsn_eq) (sym id_eq)
            ∙ (λ i. (same_file i, loop_ok i));
        same = ok-injective (ap (λ (r : List ℕ × Result Appended). r.1) h4);
      }

  pub append_commits-Holds :
      (commits : List WalCommit) (next_lsn next_batch_id : ℕ) (file file' : List ℕ) (out : Appended)
      (committed : List CommittedWalBatch)
      → All IsCommit commits
      → append_commits crc32c version next_lsn next_batch_id commits file ≡ (file', ok out)
      → HoldsAt file next_lsn next_batch_id committed
      → HoldsAt file' out.next_lsn out.next_batch_id (committed ++ map committed_of commits)
        × (out.committed ≡ map committed_of commits)
  unfolding append_commits
  append_commits-Holds [] next_lsn next_batch_id file file' out committed shapes h holds =
      let same_file = ap (λ (r : List ℕ × Result Appended). r.0) h in
      let same = ok-injective (ap (λ (r : List ℕ × Result Appended). r.1) h) in
      (
        subst (λ f. HoldsAt f out.next_lsn out.next_batch_id (committed ++ [])) same_file
            (subst (λ (o : Appended). HoldsAt file o.next_lsn o.next_batch_id (committed ++ []))
              same
              (subst (HoldsAt file next_lsn next_batch_id) (sym (append-nil committed)) holds)),
        ap (λ (o : Appended). o.committed) (sym same),
      )
  append_commits-Holds (commit ∷ commits) next_lsn next_batch_id file file' out committed shapes h
        holds =
      let r = append_commits-Round commit commits next_lsn next_batch_id file file' out h in
      let step =
        append_group_commit-Holds commit next_lsn next_batch_id file r.middle r.report committed
          shapes.0 r.written holds r.batch_u64 in
      let (done, same) =
        append_commits-Holds commits (suc r.report.commit_lsn) (suc next_batch_id) r.middle file'
          r.rest (committed ++ (committed_of commit ∷ [])) shapes.1 r.looped step in
      (
        subst
            (λ (o : Appended).
              HoldsAt file' o.next_lsn o.next_batch_id
                (committed ++ map committed_of (commit ∷ commits)))
            r.same
            (subst (HoldsAt file' r.rest.next_lsn r.rest.next_batch_id)
              (append_assoc committed (committed_of commit ∷ []) (map committed_of commits)) done),
        sym (ap (λ (o : Appended). o.committed) r.same) ∙ ap (λ l. committed_of commit ∷ l) same,
      )
