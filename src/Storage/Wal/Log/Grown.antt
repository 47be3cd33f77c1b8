-- ===== src/Storage/Wal/Log/Grown.antt =====
-- wal.rs: a log that holds its batches still does so with a commit or a group behind them.
use dodb.Bytes.{U32, U64}
use dodb.Storage.Wal.Frame.{Frame}
use dodb.Storage.Wal.Frame.RoundTrip.{IsFrame}
use dodb.Storage.Wal.Scan.Appended.{log_bytes, log_bytes-append}
use dodb.Storage.Wal.Payload.{WalIdentity, WalPageImage}
use dodb.Storage.Wal.Batches.{
  CommittedWalBatch, PendingBatch, is_other_batch, validate_lsns, scan_frames,
}
use dodb.Storage.Wal.Batches.Recovered.{IsImage, commit_frames, waiting, scan_frames-image_frames}
use dodb.Storage.Wal.Write.{WalCommit, WalAppendReport, is_empty}
use dodb.Storage.Wal.Write.Written.{CommitWritten}
use dodb.Storage.Wal.Log.Group.{committed_of}
use dodb.Storage.Wal.Log.Holds.{Holds}
use dodb.Storage.Wal.Log.Order.{
  Below, Below-le, Ascending-append, commit_frames-Below, commit_frames-IsVersion,
  commit_frames-Ascending, scan_frames-append,
}
use dodb.Prelude.{
  ℕ, suc, ◌+◌, ◌<◌, ◌≤◌, ◌≡◌, ◌⊎◌, refl, sym, subst, ap, ◌∙◌, true, false, List, [], ◌∷◌, ◌++◌,
  Option, none, ok, length, All, All-append, arith,
}

module _ (crc32c : List ℕ → ℕ) (crc_u32 : (bytes : List ℕ) → crc32c bytes < U32)
    (identity : WalIdentity) (version history : ℕ) where
  scan_frames-commit_frames :
      (committed : List CommittedWalBatch) (pending : Option PendingBatch)
      (highest max_id batch_id first_lsn : ℕ) (pages : List WalPageImage)
      → is_empty pages ≡ false
      → All (IsImage version batch_id crc32c) pages
      → validate_lsns pages (first_lsn + length pages) ≡ ok tt
      → history < first_lsn
      → first_lsn + length pages < U64
      → length pages < U32
      → is_other_batch pending batch_id ≡ true
      → highest < batch_id
      → max_id ≤ batch_id
      → scan_frames crc32c history
          (waiting 0 0 crc32c history committed 0 pending highest max_id)
          (commit_frames version batch_id crc32c first_lsn pages)
        ≡ ok (
            waiting 0 0 crc32c history
              (committed
                ++ (record {
                  batch_id = batch_id;
                  commit_lsn = first_lsn + length pages;
                  pages = pages;
                }
                    ∷ []))
              0
              none
              batch_id
              batch_id)
  unfolding scan_frames
  scan_frames-commit_frames committed pending highest max_id batch_id first_lsn [] nonempty images
        lsns later lsn_u64 count other fresh max_below =
      cc
  scan_frames-commit_frames committed pending highest max_id batch_id first_lsn (page ∷ pages)
        nonempty images lsns later lsn_u64 count other fresh max_below =
      scan_frames-image_frames version batch_id crc32c history committed first_lsn pending highest
        max_id page pages [] crc_u32 images lsns later (omega arith) count other fresh max_below

  abbrev HoldsAt : List ℕ → ℕ → ℕ → List CommittedWalBatch → Type 0
  HoldsAt file next_lsn next_batch_id committed =
      Holds crc32c identity version history file next_lsn next_batch_id committed

  module _ (version_ok : (version ≡ 1) ⊎ (version ≡ 2)) (commit : WalCommit) (first_lsn : ℕ)
      (file file' : List ℕ) (report : WalAppendReport) (committed : List CommittedWalBatch)
      (w : CommitWritten crc32c version version_ok commit first_lsn commit.batch_id file file'
        report)
      (h : HoldsAt file first_lsn commit.batch_id committed) where
    abbrev added : List Frame
    added = commit_frames version commit.batch_id crc32c first_lsn commit.pages

    pub CommitWritten-Holds :
        suc commit.batch_id < U64
        → HoldsAt file'
            (suc commit.commit_lsn)
            (suc commit.batch_id)
            (committed ++ (committed_of commit ∷ []))
    unfolding log_bytes
    CommitWritten-Holds batch_u64 =
        let first_below : first_lsn < suc commit.commit_lsn = omega (arith, w.lsn) in
        let all = h.first ∷ h.rest in
        record {
          first = h.first;
          rest = h.rest ++ added;
          pending = none;
          highest = commit.batch_id;
          max_id = commit.batch_id;
          bytes =
              w.bytes
              ∙ ap (λ l. l ++ log_bytes crc32c added) h.bytes
              ∙ sym (log_bytes-append crc32c all added);
          is_init = h.is_init;
          version_ok = version_ok;
          frames = All-append IsFrame all added h.frames w.frames;
          versions =
              All-append (λ (f : Frame). f.format_version ≡ version) all added h.versions
                (commit_frames-IsVersion version commit.batch_id crc32c first_lsn commit.pages);
          order =
              Ascending-append none all added first_lsn h.order tt h.below
                (commit_frames-Ascending version commit.batch_id crc32c first_lsn commit.pages);
          below =
              All-append (λ (f : Frame). f.record_lsn < suc commit.commit_lsn) all added
                (Below-le first_lsn (suc commit.commit_lsn) all (omega arith) h.below)
                (subst (λ l. Below (suc l) added) (sym w.lsn)
                  (commit_frames-Below version commit.batch_id crc32c first_lsn commit.pages));
          after_history = omega (arith, h.after_history);
          scanned =
              scan_frames-append crc32c history h.rest added _ _ h.scanned
              ∙ scan_frames-commit_frames committed h.pending h.highest h.max_id commit.batch_id
                  first_lsn commit.pages w.nonempty w.images
                  (subst (λ l. validate_lsns commit.pages l ≡ ok tt) w.lsn w.lsns) h.after_history
                  w.lsn_u64 w.count_u32 h.other h.highest_below (omega (arith, h.next_batch))
              ∙ ap
                  (λ l. ok (
                    waiting 0 0 crc32c history
                      (committed
                        ++ (record {
                          batch_id = commit.batch_id;
                          commit_lsn = l;
                          pages = commit.pages;
                        }
                            ∷ []))
                      0 none commit.batch_id commit.batch_id))
                  (sym w.lsn);
          highest_below = omega arith;
          next_batch = refl;
          batch_u64 = batch_u64;
          other = refl;
        }
