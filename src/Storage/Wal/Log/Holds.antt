-- ===== src/Storage/Wal/Log/Holds.antt =====
-- wal.rs: what a log holds. The file is the bytes of a first frame and of frames with rising LSNs,
-- and the scan of these finds the committed batches of the log.
use dodb.Bytes.{U64}
use dodb.Storage.Wal.Frame.{Frame, WalRecordType}
use dodb.Storage.Wal.Frame.RoundTrip.{IsFrame}
use dodb.Storage.Wal.Scan.Appended.{Ascending, log_bytes}
use dodb.Storage.Wal.Payload.{WalIdentity, verify_identity}
use dodb.Storage.Wal.Batches.{CommittedWalBatch, PendingBatch, is_other_batch, scan_frames}
use dodb.Storage.Wal.Batches.Recovered.{waiting}
use dodb.Storage.Wal.Log.{WalLog, empty_scan}
use dodb.Storage.Wal.Log.Order.{Below-le}
use dodb.Prelude.{ℕ, suc, ◌<◌, ◌≤◌, ◌≡◌, ◌⊎◌, true, List, ◌∷◌, Option, none, ok, All, arith}

-- The first frame of a log.
pub record IsInit (identity : WalIdentity) (history : ℕ) (frame : Frame) : Type 0 where
  pub is_init : frame.record_type ≡ WalRecordType.init
  pub lsn : frame.record_lsn ≡ 0
  pub batch : frame.batch_id ≡ 0
  pub index : frame.record_index ≡ 0
  pub accepted : verify_identity frame.format_version frame.payload identity ≡ ok history

module _ (crc32c : List ℕ → ℕ) (identity : WalIdentity) (version history : ℕ) where
  -- The pending batch is one that a crash left behind.
  pub record Holds (file : List ℕ) (next_lsn next_batch_id : ℕ) (committed : List CommittedWalBatch)
      : Type 0 where
    pub first : Frame
    pub rest : List Frame
    pub pending : Option PendingBatch
    pub highest : ℕ
    pub max_id : ℕ
    pub bytes : file ≡ log_bytes crc32c (first ∷ rest)
    pub is_init : IsInit identity history first
    pub version_ok : (version ≡ 1) ⊎ (version ≡ 2)
    pub frames : All IsFrame (first ∷ rest)
    pub versions : All (λ (f : Frame). f.format_version ≡ version) (first ∷ rest)
    pub order : Ascending none (first ∷ rest)
    pub below : All (λ (f : Frame). f.record_lsn < next_lsn) (first ∷ rest)
    pub after_history : history < next_lsn
    pub scanned :
        scan_frames crc32c history empty_scan rest
        ≡ ok (waiting 0 0 crc32c history committed 0 pending highest max_id)
    pub highest_below : highest < next_batch_id
    pub next_batch : next_batch_id ≡ suc max_id
    pub batch_u64 : next_batch_id < U64
    pub other : is_other_batch pending next_batch_id ≡ true

  -- A later next LSN changes nothing.
  pub Holds-le :
      (file : List ℕ) (a b next_batch_id : ℕ) (committed : List CommittedWalBatch)
      → a ≤ b
      → Holds file a next_batch_id committed
      → Holds file b next_batch_id committed
  Holds-le file a b next_batch_id committed le h = record {
    first = h.first;
    rest = h.rest;
    pending = h.pending;
    highest = h.highest;
    max_id = h.max_id;
    bytes = h.bytes;
    is_init = h.is_init;
    version_ok = h.version_ok;
    frames = h.frames;
    versions = h.versions;
    order = h.order;
    below = Below-le a b (h.first ∷ h.rest) le h.below;
    after_history = omega (arith, h.after_history);
    scanned = h.scanned;
    highest_below = h.highest_below;
    next_batch = h.next_batch;
    batch_u64 = h.batch_u64;
    other = h.other;
  }

-- The state of a log is in order.
abbrev pub IsLog : (List ℕ → ℕ) → WalLog → Type 0
IsLog crc32c log =
    Holds crc32c log.identity log.format_version log.history_start_lsn log.file log.next_lsn
      log.next_batch_id log.committed
