-- ===== src/Storage/Wal/Write/Written.antt =====
-- wal.rs: what `append_group_commit` leaves in the file.
use dodb.Core.Error.{Result, invalid_input, internal_invariant_violation}
use dodb.Bytes.{copy_at, zeros, le_bytes, U32, U64}
use dodb.Storage.Wal.Frame.{Frame, WalRecordType}
use dodb.Storage.Wal.Frame.RoundTrip.{IsFrame}
use dodb.Storage.Wal.Scan.Frames.{frame_bytes}
use dodb.Storage.Wal.Scan.Appended.{log_bytes, log_bytes-append}
use dodb.Storage.Wal.Payload.{commit_payload}
use dodb.Storage.Wal.Payload.RoundTrip.{IsPageImage}
use dodb.Storage.Wal.Batches.{validate_lsns}
use dodb.Storage.Wal.Batches.Recovered.{
  digest_of, image_frames, commit_frame, commit_frames, IsImage,
}
use dodb.Storage.Wal.Write.Steps.{and_then-eq-ok}
use dodb.Storage.Wal.Write.{
  WalCommit, WalAppendReport, is_empty, write_frame, append_pages, append_group_commit,
}
use dodb.Storage.Wal.Write.Pages.{write_frame-ok, append_pages-ok}
use dodb.Prelude.{
  ℕ, ◌+◌, ◌-◌, ◌<◌, ◌≤◌, ◌≡◌, ◌⊎◌, sym, ap, ap₂, subst, ◌∙◌, List, [], ◌∷◌, ◌++◌, append_assoc,
  append-nil, ok, fail_if, ltb, not, ◌==◌, false, All-append, length, All, arith, ok-injective,
}

module _ (crc32c : List ℕ → ℕ) (version : ℕ) where
  commit_payload_size_ok :
      (first count digest : ℕ) → length (commit_payload first count digest) ≤ 67108864
  unfolding commit_payload copy_at zeros le_bytes
  commit_payload_size_ok first count digest = omega arith

  module _ (version_ok : (version ≡ 1) ⊎ (version ≡ 2)) (commit : WalCommit) where
    -- What `append_group_commit` has done when it ends well.
    pub record CommitWritten (first_lsn expected : ℕ) (file file' : List ℕ)
        (report : WalAppendReport) : Type 0 where
      pub nonempty : is_empty commit.pages ≡ false
      pub batch : commit.batch_id ≡ expected
      pub lsn : commit.commit_lsn ≡ first_lsn + length commit.pages
      pub lsn_u64 : first_lsn + length commit.pages < U64
      pub count_u32 : length commit.pages < U32
      pub bytes :
          file'
          ≡ file
            ++ log_bytes crc32c
                (commit_frames version commit.batch_id crc32c first_lsn commit.pages)
      pub images : All (IsImage version commit.batch_id crc32c) commit.pages
      pub lsns : validate_lsns commit.pages commit.commit_lsn ≡ ok tt
      pub frames : All IsFrame (commit_frames version commit.batch_id crc32c first_lsn commit.pages)
      pub reported : report.commit_lsn ≡ commit.commit_lsn

    -- The commit record, with the LSN that the commit names and the digest that was gathered.
    abbrev commit_record : List ℕ → ℕ → Frame
    commit_record digest_input first_lsn = record {
      format_version = version;
      record_type = WalRecordType.commit;
      record_lsn = commit.commit_lsn;
      batch_id = commit.batch_id;
      record_index = length commit.pages;
      payload = commit_payload first_lsn (length commit.pages) (crc32c digest_input);
    }

    commit_record-commit_frame :
        (digest_input : List ℕ) (first_lsn : ℕ)
        → digest_input ≡ digest_of commit.pages
        → commit.commit_lsn ≡ first_lsn + length commit.pages
        → commit_record digest_input first_lsn
          ≡ commit_frame version commit.batch_id crc32c first_lsn commit.pages
    commit_record-commit_frame digest_input first_lsn d l = λ i. record {
      format_version = version;
      record_type = WalRecordType.commit;
      record_lsn = l i;
      batch_id = commit.batch_id;
      record_index = length commit.pages;
      payload = commit_payload first_lsn (length commit.pages) (crc32c (d i));
    }

    module _ (first_lsn expected : ℕ) (file file' : List ℕ) (report : WalAppendReport)
        (batch_u64 : commit.batch_id < U64) (shapes : All IsPageImage commit.pages) where
      pub append_group_commit-ok :
          append_group_commit crc32c version commit first_lsn expected file ≡ (file', ok report)
          → CommitWritten first_lsn expected file file' report
      unfolding append_group_commit log_bytes
      append_group_commit-ok h =
          let count = length commit.pages in
          let (u1, some_pages, h1) =
            and_then-eq-ok (file, fail_if (is_empty commit.pages) invalid_input) _ h in
          let (u2, batch_ok, h2) =
            and_then-eq-ok
              (file, fail_if (not (commit.batch_id == expected)) internal_invariant_violation) _
              h1 in
          let (u3, lsn_fits, h3) =
            and_then-eq-ok
              (file, fail_if (ltb (U64 - 1) (first_lsn + count)) internal_invariant_violation) _
              h2 in
          let (u4, lsn_ok, h4) =
            and_then-eq-ok
              (
                file,
                fail_if (not (commit.commit_lsn == first_lsn + count)) internal_invariant_violation,
              )
              _ h3 in
          let (out, written, h5) =
            and_then-eq-ok (append_pages crc32c version commit first_lsn 0 [] 0 commit.pages file) _
              h4 in
          let middle = (append_pages crc32c version commit first_lsn 0 [] 0 commit.pages file).0 in
          let (u6, count_fits, h6) =
            and_then-eq-ok (middle, fail_if (ltb (U32 - 1) count) invalid_input) _ h5 in
          let (size, committed, h7) =
            and_then-eq-ok (write_frame crc32c version (commit_record out.0 first_lsn) middle) _
              h6 in
          let w =
            append_pages-ok crc32c version commit first_lsn version_ok batch_u64 commit.pages 0 [] 0
              file middle out shapes (λ i. (middle, written i)) in
          let start : first_lsn + 0 ≡ first_lsn = omega arith in
          let lsn_eq : commit.commit_lsn ≡ first_lsn + count = ground (arith, lsn_ok) in
          let whole_u64 : first_lsn + count < U64 = ground (arith, lsn_fits) in
          let count_u32 : count < U32 = ground (arith, count_fits) in
          let cf = commit_frame version commit.batch_id crc32c first_lsn commit.pages in
          let images_at = λ (l : ℕ). image_frames version commit.batch_id l 0 commit.pages in
          record {
            nonempty = ground (arith, some_pages);
            batch = ground (arith, batch_ok);
            lsn = lsn_eq;
            lsn_u64 = whole_u64;
            count_u32 = count_u32;
            bytes =
                sym (ap (λ (r : List ℕ × Result WalAppendReport). r.0) h7)
                ∙ write_frame-ok crc32c version (commit_record out.0 first_lsn) middle committed
                ∙ ap₂ (λ m f. m ++ frame_bytes crc32c f)
                    (w.bytes ∙ ap (λ l. file ++ log_bytes crc32c (images_at l)) start)
                    (commit_record-commit_frame out.0 first_lsn w.digest lsn_eq)
                ∙ append_assoc file (log_bytes crc32c (images_at first_lsn)) (frame_bytes crc32c cf)
                ∙ ap (λ l. file ++ (log_bytes crc32c (images_at first_lsn) ++ l))
                    (sym (append-nil (frame_bytes crc32c cf)))
                ∙ ap (λ l. file ++ l)
                    (sym (log_bytes-append crc32c (images_at first_lsn) (cf ∷ [])));
            images = w.images;
            lsns = w.lsns;
            frames =
                All-append IsFrame (images_at first_lsn) (cf ∷ [])
                  (subst (λ l. All IsFrame (images_at l)) start w.frames)
                  (
                    record {
                      version = version_ok;
                      lsn_u64 = whole_u64;
                      batch_u64 = batch_u64;
                      index_u32 = count_u32;
                      size =
                          commit_payload_size_ok first_lsn count (crc32c (digest_of commit.pages));
                    },
                    tt,
                  );
            reported =
                ap (λ (r : WalAppendReport). r.commit_lsn)
                  (sym (ok-injective (ap (λ (r : List ℕ × Result WalAppendReport). r.1) h7)));
          }
