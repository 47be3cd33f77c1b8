-- ===== src/Storage/Wal/Write.antt =====
-- crates/dodb-storage/src/wal.rs: `append_group_commit`, over a file that takes every write.
-- A step that fails leaves in the file what was written before it. No fault injector is set, and the
-- byte counts of buffers in memory fit `usize`.
pub mod Steps
mod Pages
pub mod Written
pub mod Extends
use dodb.Core.Error.{Result, invalid_input, internal_invariant_violation}
use dodb.Bytes.{U32, U64}
use dodb.Storage.Wal.Frame.{Frame, WalRecordType, append_frame}
use dodb.Storage.Wal.Payload.{
  WalPageImage, validate_page_image_lsn, encode_page_image, commit_payload,
}
use dodb.Prelude.{
  ℕ, suc, ◌+◌, ◌-◌, Bool, true, false, not, List, [], ◌∷◌, ◌++◌, ok, err, fail_if, ◌==◌, ltb,
  length,
}
use Steps.{Write, ◌>>=◌, ◌>>◌, lift, done}

-- `WalCommit`
pub record WalCommit : Type 0 where
  pub batch_id : ℕ
  pub commit_lsn : ℕ
  pub pages : List WalPageImage

pub record WalAppendReport : Type 0 where
  pub first_record_lsn : ℕ
  pub commit_lsn : ℕ
  pub page_count : ℕ
  pub bytes_written : ℕ

abbrev pub is_empty {ℓ} : {A : Type ℓ} → List A → Bool
is_empty [] = true
is_empty (x ∷ xs) = false

module _ (crc32c : List ℕ → ℕ) (format_version : ℕ) where
  -- `append_frame` on the file of the log; it fails before its first write.
  unfoldable pub write_frame : Frame → Write ℕ
  write_frame frame file = elim (append_frame crc32c file frame) [
    | ok (longer, size) ↦ (longer, ok size)
    | err e ↦ (file, err e)
  ]

  -- The loop over the pages, from an index on: the digest input and the bytes written so far.
  unfoldable pub append_pages :
      WalCommit → ℕ → ℕ → List ℕ → ℕ → List WalPageImage → Write (List ℕ × ℕ)
  append_pages commit first_record_lsn index digest_input bytes_written [] =
      done (digest_input, bytes_written)
  append_pages commit first_record_lsn index digest_input bytes_written (page ∷ pages) = do
    lift (validate_page_image_lsn page commit.commit_lsn)
    payload ← lift (encode_page_image crc32c page)
    lift (fail_if (ltb (U64 - 1) (first_record_lsn + index)) internal_invariant_violation)
    lift (fail_if (ltb (U32 - 1) index) invalid_input)
    size ← write_frame (record {
      format_version = format_version;
      record_type = WalRecordType.page_image;
      record_lsn = first_record_lsn + index;
      batch_id = commit.batch_id;
      record_index = index;
      payload = payload;
    })
    append_pages commit first_record_lsn (suc index) (digest_input ++ payload)
        (bytes_written + size) pages

  unfoldable pub append_group_commit : WalCommit → ℕ → ℕ → Write WalAppendReport
  append_group_commit commit first_record_lsn expected_batch_id = do
    lift (fail_if (is_empty commit.pages) invalid_input)
    lift (fail_if (not (commit.batch_id == expected_batch_id)) internal_invariant_violation)
    let page_count = length commit.pages
    lift (fail_if (ltb (U64 - 1) (first_record_lsn + page_count)) internal_invariant_violation)
    lift (
        fail_if (not (commit.commit_lsn == first_record_lsn + page_count))
          internal_invariant_violation)
    (digest_input, bytes_written) ← append_pages commit first_record_lsn 0 [] 0 commit.pages
    lift (fail_if (ltb (U32 - 1) page_count) invalid_input)
    size ← write_frame (record {
      format_version = format_version;
      record_type = WalRecordType.commit;
      record_lsn = commit.commit_lsn;
      batch_id = commit.batch_id;
      record_index = page_count;
      payload = commit_payload first_record_lsn page_count (crc32c digest_input);
    })
    done (record {
      first_record_lsn = first_record_lsn;
      commit_lsn = commit.commit_lsn;
      page_count = page_count;
      bytes_written = bytes_written + size;
    })
