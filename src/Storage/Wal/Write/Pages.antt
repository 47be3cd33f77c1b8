-- ===== src/Storage/Wal/Write/Pages.antt =====
-- wal.rs: what `append_pages` leaves in the file.
use dodb.Core.Error.{Result, invalid_input, internal_invariant_violation}
use dodb.Bytes.{le_bytes, length-le_bytes, U32, U64}
use dodb.Storage.Wal.Frame.{Frame, append_frame}
use dodb.Storage.Wal.Frame.RoundTrip.{IsFrame}
use dodb.Storage.Wal.Scan.Frames.{frame_bytes}
use dodb.Storage.Wal.Scan.Appended.{log_bytes, append_frame-frame_bytes}
use dodb.Storage.Wal.Payload.{WalPageImage, validate_page_image_lsn, encode_page_image}
use dodb.Storage.Wal.Payload.RoundTrip.{IsPageImage, encode_page_image-ok}
use dodb.Storage.Wal.Batches.{validate_lsns}
use dodb.Storage.Wal.Batches.Recovered.{
  image_payload, digest_of, image_frame, image_frames, IsImage,
}
use dodb.Storage.Wal.Write.Steps.{and_then, and_then-eq-ok}
use dodb.Storage.Wal.Write.{WalCommit, write_frame, append_pages}
use dodb.Prelude.{
  ℕ, suc, ◌+◌, ◌-◌, ◌<◌, ◌≡◌, ◌⊎◌, refl, sym, ap, subst, ◌∙◌, List, [], ◌∷◌, ◌++◌, append_assoc,
  append-nil, ok, fail_if, ltb, length-append, All, Result-cases, arith, inl, inr, ok-injective,
}

module _ (crc32c : List ℕ → ℕ) (version : ℕ) where
  pub write_frame-ok :
      (frame : Frame) (file : List ℕ) {size : ℕ}
      → (write_frame crc32c version frame file).1 ≡ ok size
      → (write_frame crc32c version frame file).0 ≡ file ++ frame_bytes crc32c frame
  unfolding write_frame
  write_frame-ok frame file h = elim (Result-cases (append_frame crc32c file frame)) [
    | inl (out, written) ↦
        rw (written, write_frame) (sym (append_frame-frame_bytes crc32c file frame out written))
    | inr (e, failed) ↦ ground (arith, failed)
  ]

  module _ (commit : WalCommit) (first_lsn : ℕ) (version_ok : (version ≡ 1) ⊎ (version ≡ 2))
      (batch_u64 : commit.batch_id < U64) where
    -- What the loop over the pages has done when it ends well.
    pub record PagesWritten (index : ℕ) (digest_input : List ℕ) (pages : List WalPageImage)
        (file file' digest' : List ℕ) : Type 0 where
      pub bytes :
          file'
          ≡ file
            ++ log_bytes crc32c
                (image_frames version commit.batch_id (first_lsn + index) index pages)
      pub digest : digest' ≡ digest_input ++ digest_of pages
      pub images : All (IsImage version commit.batch_id crc32c) pages
      pub lsns : validate_lsns pages commit.commit_lsn ≡ ok tt
      pub frames :
          All IsFrame (image_frames version commit.batch_id (first_lsn + index) index pages)

    abbrev frame_of : ℕ → WalPageImage → Frame
    frame_of index page = image_frame version commit.batch_id (first_lsn + index) index page

    image_fits :
        (index : ℕ) (page : WalPageImage)
        → IsPageImage page
        → first_lsn + index < U64
        → index < U32
        → IsFrame (frame_of index page)
    image_fits index page shape lsn_u64 index_u32 = record {
      version = version_ok;
      lsn_u64 = lsn_u64;
      batch_u64 = batch_u64;
      index_u32 = index_u32;
      size = omega (
        arith,
        length-append (le_bytes 8 page.page_id) page.image,
        length-le_bytes 8 page.page_id,
        shape.size,
      );
    }

    PagesWritten-cons :
        (index : ℕ) (digest_input : List ℕ) (page : WalPageImage) (pages : List WalPageImage)
        (file file' digest' : List ℕ)
        → IsImage version commit.batch_id crc32c page
        → validate_page_image_lsn page commit.commit_lsn ≡ ok tt
        → IsFrame (frame_of index page)
        → PagesWritten
            (suc index)
            (digest_input ++ image_payload page)
            pages
            (file ++ frame_bytes crc32c (frame_of index page))
            file'
            digest'
        → PagesWritten index digest_input (page ∷ pages) file file' digest'
    unfolding log_bytes validate_lsns
    PagesWritten-cons index digest_input page pages file file' digest' image lsn_ok frame w =
        let next : first_lsn + suc index ≡ suc (first_lsn + index) = omega arith in
        record {
          bytes =
              w.bytes
              ∙ ap
                  (λ l.
                    (file ++ frame_bytes crc32c (frame_of index page))
                    ++ log_bytes crc32c (image_frames version commit.batch_id l (suc index) pages))
                  next
              ∙ append_assoc file (frame_bytes crc32c (frame_of index page)) _;
          digest = w.digest ∙ append_assoc digest_input (image_payload page) (digest_of pages);
          images = (image, w.images);
          lsns = rw lsn_ok w.lsns;
          frames = (
            frame,
            subst (λ l. All IsFrame (image_frames version commit.batch_id l (suc index) pages)) next
                w.frames,
          );
        }

    pub append_pages-ok :
        (pages : List WalPageImage) (index : ℕ) (digest_input : List ℕ) (n : ℕ)
        (file file' : List ℕ) (out : List ℕ × ℕ)
        → All IsPageImage pages
        → append_pages crc32c version commit first_lsn index digest_input n pages file
          ≡ (file', ok out)
        → PagesWritten index digest_input pages file file' out.0
    unfolding append_pages log_bytes validate_lsns
    append_pages-ok [] index digest_input n file file' out shapes h = record {
      bytes = sym (ap (λ (r : List ℕ × Result (List ℕ × ℕ)). r.0) h) ∙ sym (append-nil file);
      digest =
          ap (λ (o : List ℕ × ℕ). o.0)
            (sym (ok-injective (ap (λ (r : List ℕ × Result (List ℕ × ℕ)). r.1) h)))
          ∙ sym (append-nil digest_input);
      images = tt;
      lsns = refl;
      frames = tt;
    }
    append_pages-ok (page ∷ pages) index digest_input n file file' out shapes h =
        let (u1, lsn_ok, h1) =
          and_then-eq-ok (file, validate_page_image_lsn page commit.commit_lsn) _ h in
        let (payload, encoded, h2) = and_then-eq-ok (file, encode_page_image crc32c page) _ h1 in
        let (u3, lsn_fits, h3) =
          and_then-eq-ok
            (file, fail_if (ltb (U64 - 1) (first_lsn + index)) internal_invariant_violation) _ h2 in
        let (u4, index_fits, h4) =
          and_then-eq-ok (file, fail_if (ltb (U32 - 1) index) invalid_input) _ h3 in
        let (valid, same) = encode_page_image-ok crc32c page payload encoded in
        let h5 =
          subst
            (λ p.
              and_then
                (write_frame crc32c version (record (frame_of index page) { payload = p }) file)
                (λ size.
                  append_pages crc32c version commit first_lsn (suc index) (digest_input ++ p)
                    (n + size) pages)
              ≡ (file', ok out))
            (sym same) h4 in
        let (size, written, h6) =
          and_then-eq-ok (write_frame crc32c version (frame_of index page) file) _ h5 in
        PagesWritten-cons index digest_input page pages file file' out.0
          (record { shape = shapes.0; valid = valid }) lsn_ok
          (image_fits index page shapes.0 (ground (arith, lsn_fits)) (ground (arith, index_fits)))
          (subst
            (λ f. PagesWritten (suc index) (digest_input ++ image_payload page) pages f file' out.0)
            (write_frame-ok (frame_of index page) file written)
            (append_pages-ok pages (suc index) (digest_input ++ image_payload page) (n + size) _
              file' out shapes.1 h6))
