-- ===== src/Storage/Wal/Log/Order.antt =====
-- wal.rs: the LSNs and versions of the frames that a commit adds to a log, and the scan of a log in
-- two parts.
use dodb.Storage.Wal.Frame.{Frame}
use dodb.Storage.Wal.Scan.Appended.{Behind, Ascending}
use dodb.Storage.Wal.Payload.{WalPageImage}
use dodb.Storage.Wal.Batches.{BatchScan, scan_frame, scan_frames}
use dodb.Storage.Wal.Batches.Recovered.{image_frames, commit_frame, commit_frames}
use dodb.Prelude.{
  ℕ, suc, ◌+◌, ◌<◌, ◌≤◌, ◌≡◌, refl, ap, List, [], ◌∷◌, ◌++◌, Option, none, some, ok, length, All,
  All-map, All-append, >>=-eq-ok, ok-injective, arith,
}

-- Every LSN of the frames is below a bound.
abbrev pub Below : ℕ → List Frame → Type 0
Below bound frames = All (λ (f : Frame). f.record_lsn < bound) frames

abbrev pub IsVersion : ℕ → List Frame → Type 0
IsVersion version frames = All (λ (f : Frame). f.format_version ≡ version) frames

pub Below-le : (a b : ℕ) (frames : List Frame) → a ≤ b → Below a frames → Below b frames
Below-le a b frames h below =
    All-map (λ (f : Frame) (small : f.record_lsn < a). omega arith) frames below

Behind-le : (q : Option ℕ) (a b : ℕ) → a ≤ b → Behind q a → Behind q b
Behind-le none a b h behind = tt
Behind-le (some q) a b h behind = omega arith

pub Ascending-append :
    (previous : Option ℕ) (fs gs : List Frame) (bound : ℕ)
    → Ascending previous fs
    → Behind previous bound
    → Below bound fs
    → ((q : Option ℕ) → Behind q bound → Ascending q gs)
    → Ascending previous (fs ++ gs)
Ascending-append previous [] gs bound order behind below h = h previous behind
Ascending-append previous (f ∷ fs) gs bound order behind below h =
    (order.0, Ascending-append (some f.record_lsn) fs gs bound order.1 below.0 below.1 h)

module _ (version batch_id : ℕ) where
  pub image_frames-Below :
      (pages : List WalPageImage) (lsn index bound : ℕ)
      → lsn + length pages ≤ bound
      → Below bound (image_frames version batch_id lsn index pages)
  image_frames-Below [] lsn index bound h = tt
  image_frames-Below (page ∷ pages) lsn index bound h =
      (omega arith, image_frames-Below pages (suc lsn) (suc index) bound (omega arith))

  pub image_frames-IsVersion :
      (pages : List WalPageImage) (lsn index : ℕ)
      → IsVersion version (image_frames version batch_id lsn index pages)
  image_frames-IsVersion [] lsn index = tt
  image_frames-IsVersion (page ∷ pages) lsn index =
      (refl, image_frames-IsVersion pages (suc lsn) (suc index))

  pub image_frames-Ascending :
      (pages : List WalPageImage) (lsn index : ℕ) (previous : Option ℕ) (rest : List Frame)
      → Behind previous lsn
      → ((q : Option ℕ) → Behind q (lsn + length pages) → Ascending q rest)
      → Ascending previous (image_frames version batch_id lsn index pages ++ rest)
  image_frames-Ascending [] lsn index previous rest behind h =
      h previous (Behind-le previous lsn (lsn + 0) (omega arith) behind)
  image_frames-Ascending (page ∷ pages) lsn index previous rest behind h = (
    behind,
    image_frames-Ascending pages (suc lsn) (suc index) (some lsn) rest (omega arith) (λ q behind'.
        h q
          (Behind-le q (suc lsn + length pages) (lsn + suc (length pages)) (omega arith) behind')),
  )

  module _ (crc32c : List ℕ → ℕ) (first_lsn : ℕ) (pages : List WalPageImage) where
    pub commit_frames-Below :
        Below
          (suc (first_lsn + length pages))
          (commit_frames version batch_id crc32c first_lsn pages)
    commit_frames-Below =
        All-append (λ (f : Frame). f.record_lsn < suc (first_lsn + length pages))
          (image_frames version batch_id first_lsn 0 pages) _
          (image_frames-Below pages first_lsn 0 (suc (first_lsn + length pages)) (omega arith))
          (omega arith, tt)

    pub commit_frames-IsVersion :
        IsVersion version (commit_frames version batch_id crc32c first_lsn pages)
    commit_frames-IsVersion =
        All-append (λ (f : Frame). f.format_version ≡ version)
          (image_frames version batch_id first_lsn 0 pages) _
          (image_frames-IsVersion pages first_lsn 0) (refl, tt)

    pub commit_frames-Ascending :
        (previous : Option ℕ)
        → Behind previous first_lsn
        → Ascending previous (commit_frames version batch_id crc32c first_lsn pages)
    commit_frames-Ascending previous behind =
        image_frames-Ascending pages first_lsn 0 previous
          (commit_frame version batch_id crc32c first_lsn pages ∷ []) behind
          (λ q behind'. (behind', tt))

pub scan_frames-append :
    (crc32c : List ℕ → ℕ) (history : ℕ) (fs gs : List Frame) (scan middle : BatchScan)
    → scan_frames crc32c history scan fs ≡ ok middle
    → scan_frames crc32c history scan (fs ++ gs) ≡ scan_frames crc32c history middle gs
unfolding scan_frames
scan_frames-append crc32c history [] gs scan middle h =
    ap (λ s. scan_frames crc32c history s gs) (ok-injective h)
scan_frames-append crc32c history (f ∷ fs) gs scan middle h =
    let (next, first, rest) = >>=-eq-ok (scan_frame crc32c history scan f) _ h in
    rw first (scan_frames-append crc32c history fs gs next middle rest)
