-- ===== src/Storage/Wal/Log/Tests.antt =====
-- The theorems of the log at a fresh log and a group of one commit.
use dodb.Core.Error.{Result, internal_invariant_violation}
use dodb.Bytes.{slice, copy_at, zeros, le_bytes, from_le}
use dodb.Storage.Page.{
  new_header, page_fields, page_checksum, encode_page, decode_page_at, type_code, decode_type,
}
use dodb.Storage.Wal.Frame.{
  frame_header, header_fields, encode_frame, append_frame, record_code, header_checksum,
}
use dodb.Storage.Wal.Scan.Frames.{frame_bytes}
use dodb.Storage.Wal.Payload.{
  identity_payload, validate_page_image, validate_page_image_lsn, encode_page_image, commit_payload,
}
use dodb.Storage.Wal.Payload.RoundTrip.{IsIdentity}
use dodb.Storage.Wal.Write.{
  WalCommit, WalAppendReport, write_frame, append_pages, append_group_commit,
}
use dodb.Storage.Wal.Log.{WalLog, checked_suc, initialize_empty, open_log, resume_after}
use dodb.Storage.Wal.Log.Group.{committed_of, append_commits, append_group, reset}
use dodb.Storage.Wal.Log.Holds.{IsLog}
use dodb.Storage.Wal.Log.Loop.{IsCommit}
use dodb.Storage.Wal.Log.Preserved.{initialize_empty-IsLog, append_group-IsLog}
use dodb.Storage.Wal.Log.AppendOnly.{append_group-append_only, append_group-failed}
use dodb.Storage.Wal.Log.Started.{open_log-initialize_empty}
use dodb.Storage.Wal.Log.Restarted.{reset-IsLog}
use dodb.Storage.Wal.Log.Reopened.{open_log-resume_after}
use dodb.Storage.Wal.Log.Recovery.{append_group-open_log}
use dodb.Storage.Wal.Tests.{
  crc, crc-u32, identity, identity-IsIdentity, page, page-IsPageImage, torn_frame,
  torn_frame-IsFrame,
}
use dodb.Prelude.{
  ℕ, ◌<◌, ◌≤◌, ◌+◌, ◌≡◌, refl, sym, subst, List, [], ◌∷◌, ◌++◌, map, ok, err, length, take, All,
  arith,
}

abbrev no_log : WalLog
no_log = record {
  file = [];
  identity = identity;
  format_version = 2;
  next_lsn = 0;
  next_batch_id = 0;
  history_start_lsn = 0;
  committed = [];
  scan_report = record {
    records_scanned = 0;
    committed_batches = 0;
    replayable_pages = 0;
    torn_tail_bytes = 0;
  };
  sync_count = 0;
  page_images = 0;
}

abbrev log_of : Result WalLog → WalLog
log_of (ok log) = log
log_of (err e) = no_log

-- A log whose history starts at LSN 39.
abbrev fresh : WalLog
fresh = log_of (initialize_empty crc identity 39)

fresh_initialized : initialize_empty crc identity 39 ≡ ok fresh
unfolding initialize_empty checked_suc append_frame encode_frame frame_header header_fields
    header_checksum record_code identity_payload slice zeros copy_at le_bytes
fresh_initialized = refl

fresh-IsLog : IsLog crc fresh
fresh-IsLog = initialize_empty-IsLog crc identity 39 fresh identity-IsIdentity fresh_initialized

fresh_facts : (fresh.format_version ≡ 2) × (fresh.next_lsn ≡ 40) × (fresh.identity ≡ identity)
unfolding initialize_empty checked_suc append_frame encode_frame frame_header header_fields
    header_checksum record_code identity_payload slice zeros copy_at le_bytes
fresh_facts = (refl, refl, refl)

abbrev commits : List WalCommit
commits = (record { batch_id = 1; commit_lsn = 41; pages = page ∷ [] }) ∷ []

abbrev grown : WalLog
grown = (append_group crc fresh commits).0

abbrev reports_of : Result (List WalAppendReport) → List WalAppendReport
reports_of (ok reports) = reports
reports_of (err e) = []

abbrev reports : List WalAppendReport
reports = reports_of ((append_group crc fresh commits).1)

fresh-grown : append_group crc fresh commits ≡ (grown, ok reports)
unfolding append_group append_commits append_group_commit append_pages write_frame initialize_empty
    checked_suc append_frame encode_frame frame_header header_fields header_checksum record_code
    identity_payload encode_page_image validate_page_image validate_page_image_lsn commit_payload
    decode_page_at encode_page new_header page_fields page_checksum zeros copy_at le_bytes type_code
    slice from_le decode_type
fresh-grown = refl

commits-IsCommit : All IsCommit commits
commits-IsCommit = (record { batch_u64 = omega arith; images = (page-IsPageImage, tt) }, tt)

append_group-IsLog_example :
    IsLog crc grown × (grown.committed ≡ fresh.committed ++ map committed_of commits)
append_group-IsLog_example =
    append_group-IsLog crc crc-u32 fresh grown commits reports commits-IsCommit fresh-IsLog
      fresh-grown

grown-IsLog : IsLog crc grown
grown-IsLog =
    (append_group-IsLog crc crc-u32 fresh grown commits reports commits-IsCommit fresh-IsLog
      fresh-grown).0

-- The current version and the next LSN of the grown log.
grown_facts : (grown.format_version ≡ 2) × (grown.next_lsn ≡ 42) × (grown.history_start_lsn ≡ 39)
unfolding append_group append_commits append_group_commit append_pages write_frame initialize_empty
    checked_suc append_frame encode_frame frame_header header_fields header_checksum record_code
    identity_payload encode_page_image validate_page_image validate_page_image_lsn commit_payload
    decode_page_at encode_page new_header page_fields page_checksum zeros copy_at le_bytes type_code
    slice from_le decode_type
grown_facts = (refl, refl, refl)

torn_short : 50 < length (frame_bytes crc torn_frame)
unfolding frame_header header_fields zeros copy_at le_bytes
torn_short = omega arith

-- A crash behind the 50th byte of the next frame.
open_log-resume_after_example :
    (opened : WalLog) × (resumed : WalLog) × (open_log crc
        (grown.file ++ take 50 (frame_bytes crc torn_frame))
        grown.identity
        0
      ≡ ok opened)
    × (opened.file ≡ grown.file)
    × (opened.committed ≡ grown.committed)
    × (opened.next_batch_id ≡ grown.next_batch_id)
    × (opened.history_start_lsn ≡ grown.history_start_lsn)
    × (opened.next_lsn ≤ grown.next_lsn)
    × (resume_after opened 41 ≡ ok resumed)
    × IsLog crc resumed
    × (resumed.committed ≡ grown.committed)
open_log-resume_after_example =
    open_log-resume_after crc grown torn_frame 50 0 41 crc-u32 grown-IsLog (grown_facts.0)
      (omega (arith, grown_facts.1)) torn_frame-IsFrame refl torn_short
      (omega (arith, grown_facts.2)) (omega arith)

-- A crash behind the first hundred bytes of the group.
append_group-open_log_example :
    (k : ℕ) × (opened : WalLog) × (open_log crc
        (take (length fresh.file + 100) grown.file)
        fresh.identity
        0
      ≡ ok opened)
    × (opened.committed ≡ fresh.committed ++ take k (map committed_of commits))
append_group-open_log_example =
    append_group-open_log crc fresh grown commits reports (length fresh.file + 100) 0 crc-u32
      fresh-IsLog (fresh_facts.0) (omega (arith, fresh_facts.1)) commits-IsCommit fresh-grown
      (omega arith)

grown_identity : grown.identity ≡ identity
unfolding append_group append_commits append_group_commit append_pages write_frame initialize_empty
    checked_suc append_frame encode_frame frame_header header_fields header_checksum record_code
    identity_payload encode_page_image validate_page_image validate_page_image_lsn commit_payload
    decode_page_at encode_page new_header page_fields page_checksum zeros copy_at le_bytes type_code
    slice from_le decode_type
grown_identity = refl

abbrev restarted : WalLog
restarted = (reset crc grown 41).0

grown-reset : reset crc grown 41 ≡ (restarted, ok tt)
unfolding reset append_group append_commits append_group_commit append_pages write_frame
    initialize_empty checked_suc append_frame encode_frame frame_header header_fields
    header_checksum record_code identity_payload encode_page_image validate_page_image
    validate_page_image_lsn commit_payload decode_page_at encode_page new_header page_fields
    page_checksum zeros copy_at le_bytes type_code slice from_le decode_type
grown-reset = refl

reset-IsLog_example :
    IsLog crc restarted
    × (grown.history_start_lsn ≤ 41)
    × (restarted.committed ≡ [])
    × (restarted.history_start_lsn ≡ 41)
reset-IsLog_example =
    reset-IsLog crc grown restarted 41 (subst IsIdentity (sym grown_identity) identity-IsIdentity)
      grown-reset

-- A commit with a batch id that is not the next one.
abbrev wrong : List WalCommit
wrong = (record { batch_id = 9; commit_lsn = 41; pages = page ∷ [] }) ∷ []

fresh-wrong : append_group crc fresh wrong ≡ (fresh, err internal_invariant_violation)
unfolding append_group append_commits append_group_commit initialize_empty checked_suc append_frame
    encode_frame frame_header header_fields header_checksum record_code identity_payload slice zeros
    copy_at le_bytes
fresh-wrong = refl

append_group-failed_example : fresh ≡ (record fresh { file = fresh.file })
append_group-failed_example =
    append_group-failed crc fresh fresh wrong internal_invariant_violation fresh-wrong

append_group-append_only_example :
    (more : List ℕ) × ((append_group crc fresh commits).0.file ≡ fresh.file ++ more)
append_group-append_only_example = append_group-append_only crc fresh commits

-- A crash behind the 60th byte of the first frame.
open_log-initialize_empty_example : open_log crc (take 60 fresh.file) identity 39 ≡ ok fresh
open_log-initialize_empty_example =
    open_log-initialize_empty crc identity 39 60 fresh identity-IsIdentity fresh_initialized
      (omega arith)
