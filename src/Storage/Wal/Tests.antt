-- ===== src/Storage/Wal/Tests.antt =====
-- The theorems of the write-ahead log at concrete frames, with a checksum of one fixed value.
use dodb.Core.Error.{Result}
use dodb.Bytes.{slice, copy_at, zeros, le_bytes, from_le, U32}
use dodb.Storage.Page.{
  PageType, new_header, page_fields, page_checksum, encode_page, decode_page_at, type_code,
  decode_type,
}
use dodb.Storage.Wal.Frame.{
  Frame, WalRecordType, frame_header, header_fields, encode_frame, append_frame, append_frames,
  decode_header,
}
use dodb.Storage.Wal.Frame.RoundTrip.{IsFrame, header_of, decode_header-frame_header}
use dodb.Storage.Wal.Scan.{read_frames}
use dodb.Storage.Wal.Scan.Appended.{read_frames-append_frames}
use dodb.Storage.Wal.Payload.{
  WalIdentity, WalPageImage, identity_payload, verify_identity, validate_page_image,
  validate_page_image_lsn, encode_page_image, decode_page_image,
}
use dodb.Storage.Wal.Payload.RoundTrip.{
  IsIdentity, IsPageImage, verify_identity-identity_payload, decode_page_image-encode_page_image,
}
use dodb.Storage.Wal.Batches.{
  BatchScan, open_batch, scan_page_image, validate_lsns, scan_record, scan_frame, scan_frames,
}
use dodb.Storage.Wal.Batches.Uncommitted.{scan_frames-committed}
use dodb.Storage.Wal.Batches.Recovered
use dodb.Storage.Wal.Batches.Recovered.{
  IsImage, image_payload, image_frames, scan_frames-image_frames,
}
use dodb.Prelude.{
  some, ℕ, ◌<◌, ◌≡◌, refl, inr, List, [], ◌∷◌, ◌++◌, none, ok, err, length, take, arith,
}

abbrev pub crc : List ℕ → ℕ
crc bytes = 7

pub crc-u32 : (bytes : List ℕ) → crc bytes < U32
crc-u32 bytes = omega arith

abbrev pub identity : WalIdentity
identity = record {
  database_uuid = 0 ∷ 1 ∷ 2 ∷ 3 ∷ 4 ∷ 5 ∷ 6 ∷ 7 ∷ 8 ∷ 9 ∷ 10 ∷ 11 ∷ 12 ∷ 13 ∷ 14 ∷ 15 ∷ [];
  tenant_id = 1;
  shard_id = 2;
  shard_epoch = 3;
}

pub identity-IsIdentity : IsIdentity identity
identity-IsIdentity = record {
  uuid_size = refl;
  tenant_u64 = omega arith;
  shard_u64 = omega arith;
  epoch_u64 = omega arith;
}

verify_identity-identity_payload_example :
    verify_identity 2 (identity_payload identity 40) identity ≡ ok 40
verify_identity-identity_payload_example =
    verify_identity-identity_payload identity 40 identity-IsIdentity (omega arith)

abbrev init_frame : Frame
init_frame = record {
  format_version = 2;
  record_type = WalRecordType.init;
  record_lsn = 0;
  batch_id = 0;
  record_index = 0;
  payload = 1 ∷ 2 ∷ [];
}

abbrev commit_frame : Frame
commit_frame = record {
  format_version = 2;
  record_type = WalRecordType.commit;
  record_lsn = 41;
  batch_id = 1;
  record_index = 1;
  payload = 9 ∷ [];
}

abbrev pub torn_frame : Frame
torn_frame = record commit_frame { record_lsn = 50; batch_id = 2 }

init_frame-IsFrame : IsFrame init_frame
init_frame-IsFrame = record {
  version = inr refl;
  lsn_u64 = omega arith;
  batch_u64 = omega arith;
  index_u32 = omega arith;
  size = omega arith;
}

commit_frame-IsFrame : IsFrame commit_frame
commit_frame-IsFrame = record {
  version = inr refl;
  lsn_u64 = omega arith;
  batch_u64 = omega arith;
  index_u32 = omega arith;
  size = omega arith;
}

pub torn_frame-IsFrame : IsFrame torn_frame
torn_frame-IsFrame = record {
  version = inr refl;
  lsn_u64 = omega arith;
  batch_u64 = omega arith;
  index_u32 = omega arith;
  size = omega arith;
}

decode_header-frame_header_example :
    decode_header crc (frame_header crc commit_frame) ≡ ok (header_of commit_frame)
decode_header-frame_header_example =
    decode_header-frame_header crc commit_frame crc-u32 commit_frame-IsFrame

abbrev pub bytes_of : Result (List ℕ) → List ℕ
bytes_of (ok bytes) = bytes
bytes_of (err e) = []

abbrev log : List Frame
log = init_frame ∷ commit_frame ∷ []

abbrev log_file : List ℕ
log_file = bytes_of (append_frames crc [] log)

log_appended : append_frames crc [] log ≡ ok log_file
unfolding append_frames append_frame encode_frame frame_header header_fields zeros copy_at le_bytes
log_appended = refl

abbrev pub torn_bytes : List ℕ
torn_bytes = bytes_of (encode_frame crc torn_frame)

pub torn_encoded : encode_frame crc torn_frame ≡ ok torn_bytes
unfolding encode_frame
torn_encoded = refl

pub torn_short : 50 < length torn_bytes
unfolding encode_frame frame_header header_fields zeros copy_at le_bytes
torn_short = omega arith

-- A crash behind the 50th byte of the third frame.
read_frames-append_frames_example :
    read_frames crc
      (length (log_file ++ take 50 torn_bytes))
      none
      none
      (log_file ++ take 50 torn_bytes)
    ≡ ok (log, length log_file)
read_frames-append_frames_example =
    read_frames-append_frames crc 2 log torn_frame log_file torn_bytes 50 crc-u32
      (init_frame-IsFrame, (commit_frame-IsFrame, tt)) (refl, (refl, tt)) (tt, (omega arith, tt))
      torn_frame-IsFrame refl log_appended torn_encoded torn_short

-- An image of the free page 5.
abbrev pub page : WalPageImage
page = record {
  page_id = 5;
  image = bytes_of (encode_page crc (new_header PageType.free 5 41) (1 ∷ []));
}

pub page-IsPageImage : IsPageImage page
unfolding encode_page new_header page_fields zeros copy_at le_bytes
page-IsPageImage = record { id_u64 = omega arith; size = refl }

abbrev page_payload : List ℕ
page_payload = le_bytes 8 5 ++ page.image

page_encoded : encode_page_image crc page ≡ ok page_payload
unfolding encode_page_image validate_page_image decode_page_at encode_page new_header page_fields
    page_checksum zeros copy_at le_bytes type_code slice from_le decode_type
page_encoded = refl

decode_page_image-encode_page_image_example :
    (decode_page_image page_payload ≡ ok page) × (validate_page_image crc page ≡ ok tt)
decode_page_image-encode_page_image_example =
    decode_page_image-encode_page_image crc page page_payload page-IsPageImage page_encoded

pub page_valid : validate_page_image crc page ≡ ok tt
unfolding validate_page_image decode_page_at encode_page new_header page_fields page_checksum zeros
    copy_at le_bytes type_code slice from_le decode_type
page_valid = refl

page-IsImage : IsImage 2 1 crc page
page-IsImage = record { shape = page-IsPageImage; valid = page_valid }

page_lsns : validate_lsns (page ∷ []) 41 ≡ ok tt
unfolding validate_lsns validate_page_image_lsn encode_page new_header page_fields zeros copy_at
    le_bytes slice from_le
page_lsns = refl

-- A commit of one page behind an empty history, as batch 1.
scan_frames-image_frames_example :
    scan_frames crc 39
      (record { committed = []; pending = none; highest_batch_id_seen = 0; max_batch_id = 0 })
      (image_frames 2 1 40 0 (page ∷ []) ++ (Recovered.commit_frame 2 1 crc 40 (page ∷ []) ∷ []))
    ≡ scan_frames crc 39
        (record {
          committed = record { batch_id = 1; commit_lsn = 41; pages = page ∷ [] } ∷ [];
          pending = none;
          highest_batch_id_seen = 1;
          max_batch_id = 1;
        })
        []
scan_frames-image_frames_example =
    scan_frames-image_frames 2 1 crc 39 [] 40 none 0 0 page [] [] crc-u32 (page-IsImage, tt)
      page_lsns (omega arith) (omega arith) (omega arith) refl (omega arith) (omega arith)

-- The page image of a batch that has no commit record.
abbrev begun : BatchScan
begun = record {
  committed = [];
  pending = some (record {
    batch_id = 1;
    first_record_lsn = 40;
    pages = page ∷ [];
    digest_input = image_payload page;
  });
  highest_batch_id_seen = 1;
  max_batch_id = 1;
}

begun_scanned :
    scan_frames crc 39
      (record { committed = []; pending = none; highest_batch_id_seen = 0; max_batch_id = 0 })
      (image_frames 2 1 40 0 (page ∷ []))
    ≡ ok begun
unfolding scan_frames scan_frame scan_record scan_page_image open_batch decode_page_image
    validate_page_image decode_page_at encode_page new_header page_fields page_checksum zeros
    copy_at le_bytes type_code slice from_le decode_type
begun_scanned = refl

scan_frames-committed_example : [] ≡ begun.committed
scan_frames-committed_example =
    scan_frames-committed crc 39
      (record { committed = []; pending = none; highest_batch_id_seen = 0; max_batch_id = 0 }) begun
      (image_frames 2 1 40 0 (page ∷ [])) (refl, tt) begun_scanned
