-- ===== src/Storage/Wal/Log/Reopened.antt =====
-- wal.rs: a log in order, scanned and opened again, with a torn frame behind it.
use dodb.Bytes.{U32, U64}
use dodb.Storage.Wal.Frame.{Frame}
use dodb.Storage.Wal.Frame.RoundTrip.{IsFrame}
use dodb.Storage.Wal.Scan.{read_frames}
use dodb.Storage.Wal.Scan.Frames.{frame_bytes, length-file}
use dodb.Storage.Wal.Scan.Appended.{log_bytes, length-log_bytes, read_frames-log_bytes}
use dodb.Storage.Wal.Payload.{WalIdentity}
use dodb.Storage.Wal.Batches.{CommittedWalBatch, max}
use dodb.Storage.Wal.Log.{
  WalLog, WalScan, last_lsn, checked_suc, split_first, count_pages, scan_wal, open_scanned,
  must_restart, open_log, resume_after,
}
use dodb.Storage.Wal.Log.Holds.{Holds, IsLog}
use dodb.Storage.Wal.Log.Order.{Below-le}
use dodb.Storage.Wal.Log.Last.{
  last_lsn-Below, Ascending-last_lsn, checked_suc-fits, length-accepted,
}
use dodb.Prelude.{
  ℕ, suc, ◌-◌, ◌<◌, ◌≤◌, ◌≡◌, refl, sym, subst, ap, ◌∙◌, true, false, inl, inr, List, ◌∷◌, ◌++◌,
  none, ok, ltb, if◌then◌else◌, ◌==◌, Bool-cases, length, length-append, take, take-length_append,
  arith,
}

module _ (crc32c : List ℕ → ℕ) (crc_u32 : (bytes : List ℕ) → crc32c bytes < U32)
    (identity : WalIdentity) (version history : ℕ) (file : List ℕ) (next_lsn next_batch_id : ℕ)
    (committed : List CommittedWalBatch)
    (h : Holds crc32c identity version history file next_lsn next_batch_id committed)
    (lsn_u64 : next_lsn < U64) (torn : Frame) (is_torn : IsFrame torn)
    (torn_version : torn.format_version ≡ version) (n : ℕ)
    (short : n < length (frame_bytes crc32c torn)) where
  abbrev torn_file : List ℕ
  torn_file = file ++ take n (frame_bytes crc32c torn)

  -- What the scan finds.
  abbrev found : WalScan
  found = record {
    next_lsn = suc (last_lsn h.first.record_lsn h.rest);
    next_batch_id = next_batch_id;
    format_version = version;
    history_start_lsn = history;
    committed = committed;
    report = record {
      records_scanned = suc (length h.rest);
      committed_batches = length committed;
      replayable_pages = count_pages committed;
      torn_tail_bytes = 0;
    };
    valid_length = length file;
  }

  frames_read :
      read_frames crc32c (length torn_file) none none torn_file ≡ ok (h.first ∷ h.rest, length file)
  frames_read =
      let all = h.first ∷ h.rest in
      subst
        (λ f.
          read_frames crc32c (length (f ++ take n (frame_bytes crc32c torn))) none none
            (f ++ take n (frame_bytes crc32c torn))
          ≡ ok (all, length f))
        (sym h.bytes)
        (read_frames-log_bytes crc32c crc_u32 version torn is_torn torn_version n short all _ none
          none h.frames h.versions h.order tt
          (omega (
            arith,
            length-log_bytes crc32c all,
            length-append (log_bytes crc32c all) (take n (frame_bytes crc32c torn)),
          )))

  scan_wal-found : scan_wal crc32c torn_file identity ≡ ok found
  unfolding scan_wal split_first
  scan_wal-found =
      let last_u64 : suc (last_lsn h.first.record_lsn h.rest) < U64 =
        omega (arith, last_lsn-Below h.first.record_lsn next_lsn h.rest h.below.0 h.below.1) in
      let max_suc : checked_suc h.max_id ≡ ok next_batch_id =
        checked_suc-fits h.max_id (omega (arith, h.next_batch, h.batch_u64))
        ∙ ap ok (sym h.next_batch) in
      let lsn_0 : (h.first.record_lsn == 0) ≡ true = ground (arith, h.is_init.lsn) in
      let batch_0 : (h.first.batch_id == 0) ≡ true = ground (arith, h.is_init.batch) in
      let index_0 : (h.first.record_index == 0) ≡ true = ground (arith, h.is_init.index) in
      let max_1 : max next_batch_id 1 ≡ next_batch_id = ground (arith, h.next_batch) in
      rw
        (
          frames_read,
          h.is_init.is_init,
          h.is_init.accepted,
          h.scanned,
          checked_suc-fits (last_lsn h.first.record_lsn h.rest) last_u64,
          max_suc,
          lsn_0,
          batch_0,
          index_0,
          max_1,
          h.versions.0,
        )
        refl

  -- The log that `open` makes of the file.
  abbrev opened : WalLog
  opened = record {
    file = file;
    identity = identity;
    format_version = version;
    next_lsn = suc (last_lsn h.first.record_lsn h.rest);
    next_batch_id = next_batch_id;
    history_start_lsn = history;
    committed = committed;
    scan_report = record found.report { torn_tail_bytes = length torn_file - length file };
    sync_count = 0;
    page_images = count_pages committed;
  }

  open_scanned-opened : open_scanned crc32c torn_file identity ≡ ok opened
  unfolding open_scanned
  open_scanned-opened =
      rw (scan_wal-found, take-length_append file (take n (frame_bytes crc32c torn))) refl

  -- A log of the current version begins with a whole first frame.
  not_short : version ≡ 2 → 104 ≤ length torn_file
  unfolding log_bytes
  not_short version_2 =
      let version_eq : h.first.format_version ≡ 2 = h.versions.0 ∙ version_2 in
      let first_size =
        length-accepted h.first.format_version h.first.payload identity history version_eq
          h.is_init.accepted in
      omega (
        arith,
        first_size,
        ap length h.bytes,
        length-file crc32c h.first (log_bytes crc32c h.rest),
        length-append file (take n (frame_bytes crc32c torn)),
      )

  open_log-opened : (start : ℕ) → version ≡ 2 → open_log crc32c torn_file identity start ≡ ok opened
  unfolding open_log must_restart
  open_log-opened start version_2 =
      let long = not_short version_2 in
      let not_empty : (length torn_file == 0) ≡ false = ground arith in
      let not_torn : ltb (length torn_file) 104 ≡ false = ground arith in
      rw (not_empty, not_torn) open_scanned-opened

  abbrev resumed : ℕ → WalLog
  resumed checkpoint_lsn = record opened {
    next_lsn =
        if ltb opened.next_lsn (suc checkpoint_lsn) then suc checkpoint_lsn else opened.next_lsn;
  }

  resume_after-resumed :
      (checkpoint_lsn : ℕ)
      → suc checkpoint_lsn < U64
      → resume_after opened checkpoint_lsn ≡ ok (resumed checkpoint_lsn)
  unfolding resume_after
  resume_after-resumed checkpoint_lsn fits =
      elim (Bool-cases (ltb opened.next_lsn (suc checkpoint_lsn))) [
        | inl less ↦ rw (checked_suc-fits checkpoint_lsn fits, less) refl
        | inr enough ↦ rw (checked_suc-fits checkpoint_lsn fits, enough) refl
      ]

  resumed-IsLog :
      (checkpoint_lsn : ℕ) → history ≤ checkpoint_lsn → IsLog crc32c (resumed checkpoint_lsn)
  resumed-IsLog checkpoint_lsn later =
      let (le, below) = Ascending-last_lsn h.first.record_lsn h.rest h.order.1 in
      let next_le : suc (last_lsn h.first.record_lsn h.rest) ≤ (resumed checkpoint_lsn).next_lsn =
        ground arith in
      record {
        first = h.first;
        rest = h.rest;
        pending = h.pending;
        highest = h.highest;
        max_id = h.max_id;
        bytes = h.bytes;
        is_init = h.is_init;
        version_ok = h.version_ok;
        frames = h.frames;
        versions = h.versions;
        order = h.order;
        below = (omega arith, Below-le _ _ h.rest next_le below);
        after_history = ground arith;
        scanned = h.scanned;
        highest_below = h.highest_below;
        next_batch = h.next_batch;
        batch_u64 = h.batch_u64;
        other = h.other;
      }

  pub reopened :
      (start checkpoint_lsn : ℕ)
      → version ≡ 2
      → history ≤ checkpoint_lsn
      → suc checkpoint_lsn < U64
      → (log' : WalLog) × (resumed' : WalLog) × (open_log crc32c
            (file ++ take n (frame_bytes crc32c torn))
            identity
            start
          ≡ ok log')
        × (log'.file ≡ file)
        × (log'.committed ≡ committed)
        × (log'.next_batch_id ≡ next_batch_id)
        × (log'.history_start_lsn ≡ history)
        × (log'.next_lsn ≤ next_lsn)
        × (resume_after log' checkpoint_lsn ≡ ok resumed')
        × IsLog crc32c resumed'
        × (resumed'.committed ≡ committed)
  reopened start checkpoint_lsn version_2 later fits = (
    opened,
    resumed checkpoint_lsn,
    open_log-opened start version_2,
    refl,
    refl,
    refl,
    refl,
    last_lsn-Below h.first.record_lsn next_lsn h.rest h.below.0 h.below.1,
    resume_after-resumed checkpoint_lsn fits,
    resumed-IsLog checkpoint_lsn later,
    refl,
  )

-- A log in order comes back after a crash: if the checksum function returns 32-bit values, the log
-- is in order and of the current version, its next LSN is below 2 ^ 64, and a proper prefix of one
-- more frame in range, the empty one included, stands behind its file, then `open`, told any start
-- LSN, cuts the prefix off and returns the same committed batches, next batch id and history start,
-- with no later next LSN; and `resume_after` an LSN from the history start on that is not the last
-- one puts the log in order.
pub open_log-resume_after :
    (crc32c : List ℕ → ℕ) (log : WalLog) (torn : Frame) (n start checkpoint_lsn : ℕ)
    → ((bytes : List ℕ) → crc32c bytes < U32)
    → IsLog crc32c log
    → log.format_version ≡ 2
    → log.next_lsn < U64
    → IsFrame torn
    → torn.format_version ≡ 2
    → n < length (frame_bytes crc32c torn)
    → log.history_start_lsn ≤ checkpoint_lsn
    → suc checkpoint_lsn < U64
    → (opened : WalLog) × (resumed : WalLog) × (open_log crc32c
          (log.file ++ take n (frame_bytes crc32c torn))
          log.identity
          start
        ≡ ok opened)
      × (opened.file ≡ log.file)
      × (opened.committed ≡ log.committed)
      × (opened.next_batch_id ≡ log.next_batch_id)
      × (opened.history_start_lsn ≡ log.history_start_lsn)
      × (opened.next_lsn ≤ log.next_lsn)
      × (resume_after opened checkpoint_lsn ≡ ok resumed)
      × IsLog crc32c resumed
      × (resumed.committed ≡ log.committed)
open_log-resume_after crc32c log torn n start checkpoint_lsn crc_u32 h version_2 lsn_u64 is_torn
      torn_2 short later fits =
    reopened crc32c crc_u32 log.identity log.format_version log.history_start_lsn log.file
      log.next_lsn log.next_batch_id log.committed h lsn_u64 torn is_torn (torn_2 ∙ sym version_2) n
      short start checkpoint_lsn version_2 later fits
