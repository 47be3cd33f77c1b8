-- ===== src/Storage/Wal/Write/Extends.antt =====
-- wal.rs: a step that writes to the log only adds to its file, whether it succeeds or fails.
use dodb.Core.Error.{Result, invalid_input, internal_invariant_violation}
use dodb.Bytes.{U32, U64}
use dodb.Storage.Wal.Frame.{Frame, append_frame}
use dodb.Storage.Wal.Scan.Frames.{frame_bytes}
use dodb.Storage.Wal.Scan.Appended.{append_frame-frame_bytes}
use dodb.Storage.Wal.Payload.{WalPageImage, validate_page_image_lsn, encode_page_image}
use dodb.Storage.Wal.Write.{WalCommit, is_empty, write_frame, append_pages, append_group_commit}
use dodb.Storage.Wal.Write.Steps.{Write, and_then}
use dodb.Prelude.{
  ℕ, suc, ◌+◌, ◌-◌, ◌==◌, ◌≡◌, sym, ap, ◌∙◌, fail_if, ltb, not, inl, inr, List, [], ◌∷◌, ◌++◌,
  append_assoc, append-nil, ok, err, length, Result-cases,
}

-- What a step leaves in the file is what was there, and more behind it.
pub record Extends {A : Type 0} (file : List ℕ) (outcome : List ℕ × Result A) : Type 0 where
  pub more : List ℕ
  pub same : outcome.0 ≡ file ++ more

pub Extends-same : {A : Type 0} (file : List ℕ) (result : Result A) → Extends file (file, result)
Extends-same file result = record { more = []; same = sym (append-nil file) }

pub Extends-and_then :
    {A B : Type 0} {file : List ℕ} (start : List ℕ × Result A) (next : A → Write B)
    → Extends file start
    → ((middle : List ℕ) (a : A) → Extends middle (next a middle))
    → Extends file (and_then start next)
Extends-and_then {A} {B} {file} (middle, ok a) next first rest =
    let later = rest middle a in
    record {
      more = first.more ++ later.more;
      same =
          later.same
          ∙ ap (λ l. l ++ later.more) first.same
          ∙ append_assoc file first.more later.more;
    }
Extends-and_then {A} {B} {file} (middle, err e) next first rest = record {
  more = first.more;
  same = first.same;
}

-- A check writes nothing.
pub Extends-check :
    {A B : Type 0} (file : List ℕ) (result : Result A) (next : A → Write B)
    → ((a : A) → Extends file (next a file))
    → Extends file (and_then (file, result) next)
Extends-check file (ok a) next rest = rest a
Extends-check file (err e) next rest = Extends-same file (err e)

module _ (crc32c : List ℕ → ℕ) (version : ℕ) where
  Extends-write_frame :
      (frame : Frame) (file : List ℕ) → Extends file (write_frame crc32c version frame file)
  unfolding write_frame
  Extends-write_frame frame file = elim (Result-cases (append_frame crc32c file frame)) [
    | inl (out, written) ↦
        rw (written, write_frame)
          (record {
            more = frame_bytes crc32c frame;
            same = sym (append_frame-frame_bytes crc32c file frame out written);
          })
    | inr (e, failed) ↦ rw (failed, write_frame) (Extends-same file (err e))
  ]

  Extends-append_pages :
      (commit : WalCommit) (first_lsn index : ℕ) (digest_input : List ℕ) (n : ℕ)
      (pages : List WalPageImage) (file : List ℕ)
      → Extends file (append_pages crc32c version commit first_lsn index digest_input n pages file)
  unfolding append_pages
  Extends-append_pages commit first_lsn index digest_input n [] file =
      Extends-same file (ok (digest_input, n))
  Extends-append_pages commit first_lsn index digest_input n (page ∷ pages) file =
      Extends-check file (validate_page_image_lsn page commit.commit_lsn) _ (λ a.
        Extends-check file (encode_page_image crc32c page) _ (λ payload.
          Extends-check file
            (fail_if (ltb (U64 - 1) (first_lsn + index)) internal_invariant_violation) _
            (λ b. Extends-check file (fail_if (ltb (U32 - 1) index) invalid_input) _ (λ c.
              Extends-and_then (write_frame crc32c version _ file) _ (Extends-write_frame _ file)
                (λ middle size.
                  Extends-append_pages commit first_lsn (suc index) (digest_input ++ payload)
                    (n + size) pages middle)))))

  pub Extends-append_group_commit :
      (commit : WalCommit) (first_lsn expected : ℕ) (file : List ℕ)
      → Extends file (append_group_commit crc32c version commit first_lsn expected file)
  unfolding append_group_commit
  Extends-append_group_commit commit first_lsn expected file =
      let count = length commit.pages in
      Extends-check file (fail_if (is_empty commit.pages) invalid_input) _ (λ a.
        Extends-check file
          (fail_if (not (commit.batch_id == expected)) internal_invariant_violation) _
          (λ b.
            Extends-check file
              (fail_if (ltb (U64 - 1) (first_lsn + count)) internal_invariant_violation) _
              (λ c.
                Extends-check file
                  (fail_if (not (commit.commit_lsn == first_lsn + count))
                    internal_invariant_violation)
                  _
                  (λ d.
                    Extends-and_then
                      (append_pages crc32c version commit first_lsn 0 [] 0 commit.pages file) _
                      (Extends-append_pages commit first_lsn 0 [] 0 commit.pages file)
                      (λ middle out.
                        Extends-check middle (fail_if (ltb (U32 - 1) count) invalid_input) _ (λ e.
                          Extends-and_then (write_frame crc32c version _ middle) _
                            (Extends-write_frame _ middle)
                            (λ end size. Extends-same end (ok _))))))))
