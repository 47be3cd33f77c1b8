-- ===== src/Storage/Wal/Log/Crashed.antt =====
-- wal.rs: a crash in the middle of `append_group`. Its bytes reach the file up to some point.
use dodb.Core.Error.{Result}
use dodb.Bytes.{U32, U64}
use dodb.Storage.Wal.Frame.{Frame}
use dodb.Storage.Wal.Frame.RoundTrip.{IsFrame}
use dodb.Storage.Wal.Scan.Frames.{frame_bytes, length-frame_bytes}
use dodb.Storage.Wal.Scan.Appended.{log_bytes}
use dodb.Storage.Wal.Payload.{WalIdentity}
use dodb.Storage.Wal.Batches.{CommittedWalBatch}
use dodb.Storage.Wal.Batches.Recovered.{IsImage, image_frames, commit_frame, commit_frames}
use dodb.Storage.Wal.Write.{WalCommit, WalAppendReport, append_group_commit}
use dodb.Storage.Wal.Write.Written.{CommitWritten, append_group_commit-ok}
use dodb.Storage.Wal.Log.Group.{Appended, committed_of, append_commits}
use dodb.Storage.Wal.Log.Holds.{Holds}
use dodb.Storage.Wal.Log.Order.{commit_frames-IsVersion}
use dodb.Storage.Wal.Log.Loop.{IsCommit, append_group_commit-Holds, append_commits-Round}
use dodb.Storage.Wal.Log.AppendOnly.{Extends-append_commits}
use dodb.Storage.Wal.Log.Torn.{
  length-image_frames, take-log_bytes, take-commit_frames, Holds-image_frames,
}
use dodb.Prelude.{
  ℕ, suc, ◌+◌, ◌-◌, ◌<◌, ◌≤◌, ◌≡◌, ◌⊎◌, sym, subst, ap, ap₂, ◌∙◌, inl, inr, List, [], ◌∷◌, ◌++◌,
  map, append_assoc, append-nil, ok, ltb, Bool-cases, length, length-append, length-take, take,
  take-append_le, take-length_add, take-length_self, All, All-take, All-both, arith,
}

module _ (crc32c : List ℕ → ℕ) (crc_u32 : (bytes : List ℕ) → crc32c bytes < U32)
    (identity : WalIdentity) (version history : ℕ) where
  -- What a cut file still is: a log in order that holds the batches, and a part of one more frame.
  pub record Cut (cut : List ℕ) (committed : List CommittedWalBatch) : Type 0 where
    pub file : List ℕ
    pub next_lsn : ℕ
    pub next_batch_id : ℕ
    pub torn : Frame
    pub n : ℕ
    pub cut_eq : cut ≡ file ++ take n (frame_bytes crc32c torn)
    pub short : n < length (frame_bytes crc32c torn)
    pub is_torn : IsFrame torn
    pub torn_version : torn.format_version ≡ version
    pub lsn_u64 : next_lsn < U64
    pub holds : Holds crc32c identity version history file next_lsn next_batch_id committed

  module _ (commit : WalCommit) (first_lsn : ℕ) (file file' : List ℕ) (report : WalAppendReport)
      (committed : List CommittedWalBatch) (version_ok : (version ≡ 1) ⊎ (version ≡ 2))
      (w : CommitWritten crc32c version version_ok commit first_lsn commit.batch_id file file'
        report)
      (h : Holds crc32c identity version history file first_lsn commit.batch_id committed)
      (batch_u64 : suc commit.batch_id < U64) where
    abbrev added : List Frame
    added = commit_frames version commit.batch_id crc32c first_lsn commit.pages

    -- A cut in the middle of a commit.
    Cut-commit : (n : ℕ) → length file ≤ n → n < length file' → Cut (take n file') committed
    Cut-commit n past short =
        let k = n - length file in
        let n_eq : length file + k ≡ n = omega arith in
        let short' : k < length (log_bytes crc32c added) =
          omega (arith, n_eq, ap length w.bytes, length-append file (log_bytes crc32c added)) in
        let (j, m, torn, cut, small, j_small, torn_ok) =
          take-log_bytes crc32c (λ (f : Frame). IsFrame f × (f.format_version ≡ version)) added k
            (All-both IsFrame (λ (f : Frame). f.format_version ≡ version) added w.frames
              (commit_frames-IsVersion version commit.batch_id crc32c first_lsn commit.pages))
            short' in
        let images_count = length-image_frames version commit.batch_id first_lsn 0 commit.pages in
        let last = commit_frame version commit.batch_id crc32c first_lsn commit.pages in
        let j_le : j ≤ length commit.pages = omega (
          arith,
          j_small,
          images_count,
          length-append (image_frames version commit.batch_id first_lsn 0 commit.pages) (last ∷ []),
        ) in
        let taken =
          take-commit_frames version commit.batch_id first_lsn 0 j commit.pages last j_le in
        let pages = take j commit.pages in
        let pages_le : length pages ≤ length commit.pages =
          omega (arith, length-take j commit.pages) in
        let (next_batch_id, holds) =
          Holds-image_frames crc32c identity version history file first_lsn commit.batch_id
            committed h pages
            (All-take (IsImage version commit.batch_id crc32c) j commit.pages w.images)
            (subst (All IsFrame) taken (All-take IsFrame j added w.frames))
            (omega (arith, w.count_u32)) batch_u64 in
        let whole = log_bytes crc32c (image_frames version commit.batch_id first_lsn 0 pages) in
        record {
          file = file ++ whole;
          next_lsn = first_lsn + length pages;
          next_batch_id = next_batch_id;
          torn = torn;
          n = m;
          cut_eq =
              ap₂ take (sym n_eq) w.bytes
              ∙ take-length_add file (log_bytes crc32c added) k
              ∙ ap (λ l. file ++ l) cut
              ∙ ap (λ fs. file ++ (log_bytes crc32c fs ++ take m (frame_bytes crc32c torn))) taken
              ∙ sym (append_assoc file whole (take m (frame_bytes crc32c torn)));
          short = small;
          is_torn = torn_ok.0;
          torn_version = torn_ok.1;
          lsn_u64 = omega (arith, w.lsn_u64);
          holds = holds;
        }

  -- A log cut at its end.
  Cut-whole :
      (file : List ℕ) (next_lsn next_batch_id n : ℕ) (committed : List CommittedWalBatch)
      → Holds crc32c identity version history file next_lsn next_batch_id committed
      → next_lsn < U64
      → length file ≤ n
      → Cut (take n file) committed
  Cut-whole file next_lsn next_batch_id n committed h lsn_u64 past = record {
    file = file;
    next_lsn = next_lsn;
    next_batch_id = next_batch_id;
    torn = h.first;
    n = 0;
    cut_eq = take-length_self n file past ∙ sym (append-nil file);
    short = omega (arith, length-frame_bytes crc32c h.first []);
    is_torn = h.frames.0;
    torn_version = h.versions.0;
    lsn_u64 = lsn_u64;
    holds = h;
  }

  append_group_commit-Cut :
      (commit : WalCommit) (first_lsn expected n : ℕ) (file file' : List ℕ)
      (report : WalAppendReport) (committed : List CommittedWalBatch)
      → IsCommit commit
      → append_group_commit crc32c version commit first_lsn expected file ≡ (file', ok report)
      → Holds crc32c identity version history file first_lsn expected committed
      → suc expected < U64
      → length file ≤ n
      → n < length file'
      → Cut (take n file') committed
  append_group_commit-Cut commit first_lsn expected n file file' report committed shapes written h
        batch_u64 past short =
      let w =
        append_group_commit-ok crc32c version h.version_ok commit first_lsn expected file file'
          report shapes.batch_u64 shapes.images written in
      subst
        (λ b.
          CommitWritten crc32c version h.version_ok commit first_lsn b file file' report
          → Holds crc32c identity version history file first_lsn b committed
          → suc b < U64
          → Cut (take n file') committed)
        w.batch
        (λ w' h' u64.
          Cut-commit commit first_lsn file file' report committed h.version_ok w' h' u64 n past
            short)
        w h batch_u64

  -- A cut anywhere in a group keeps the commits before some point.
  pub append_commits-Cut :
      (commits : List WalCommit) (next_lsn next_batch_id n : ℕ) (file file' : List ℕ)
      (out : Appended) (committed : List CommittedWalBatch)
      → All IsCommit commits
      → append_commits crc32c version next_lsn next_batch_id commits file ≡ (file', ok out)
      → Holds crc32c identity version history file next_lsn next_batch_id committed
      → next_lsn < U64
      → length file ≤ n
      → (k : ℕ) × Cut (take n file') (committed ++ take k (map committed_of commits))
  unfolding append_commits
  append_commits-Cut [] next_lsn next_batch_id n file file' out committed shapes h holds lsn_u64
        past =
      (
        0,
        subst (λ f. Cut (take n f) (committed ++ [])) (ap (λ (r : List ℕ × Result Appended). r.0) h)
            (subst (Cut (take n file)) (sym (append-nil committed))
              (Cut-whole file next_lsn next_batch_id n committed holds lsn_u64 past)),
      )
  append_commits-Cut (commit ∷ commits) next_lsn next_batch_id n file file' out committed shapes h
        holds lsn_u64 past =
      let r =
        append_commits-Round crc32c crc_u32 identity version history commit commits next_lsn
          next_batch_id file file' out h in
      elim (Bool-cases (ltb n (length r.middle))) [
        | inl inside ↦
            let grown =
              Extends-append_commits crc32c version (suc r.report.commit_lsn) (suc next_batch_id)
                commits r.middle in
            let longer : file' ≡ r.middle ++ grown.more =
              sym (ap (λ (o : List ℕ × Result Appended). o.0) r.looped) ∙ grown.same in
            let same : take n r.middle ≡ take n file' =
              sym (take-append_le n r.middle grown.more (ground arith))
              ∙ ap (take n) (sym longer) in
            (
              0,
              subst (λ f. Cut f (committed ++ [])) same
                  (subst (Cut (take n r.middle)) (sym (append-nil committed)) (
                    append_group_commit-Cut commit next_lsn next_batch_id n file r.middle r.report
                      committed shapes.0 r.written holds r.batch_u64 past (ground arith))),
            )
        | inr behind ↦
            let (k, cut) =
              append_commits-Cut commits (suc r.report.commit_lsn) (suc next_batch_id) n r.middle
                file' r.rest (committed ++ (committed_of commit ∷ [])) shapes.1 r.looped
                (append_group_commit-Holds crc32c crc_u32 identity version history commit next_lsn
                  next_batch_id file r.middle r.report committed shapes.0 r.written holds
                  r.batch_u64)
                r.lsn_u64 (ground arith) in
            (
              suc k,
              subst (Cut (take n file'))
                  (append_assoc committed (committed_of commit ∷ [])
                    (take k (map committed_of commits)))
                  cut,
            )
      ]
