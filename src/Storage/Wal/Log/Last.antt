-- ===== src/Storage/Wal/Log/Last.antt =====
-- wal.rs: the last LSN of a log, and the size of its first frame.
use dodb.Core.Error.{corruption}
use dodb.Bytes.{U64}
use dodb.Storage.Wal.Frame.{Frame}
use dodb.Storage.Wal.Scan.Appended.{Ascending}
use dodb.Storage.Wal.Payload.{WalIdentity, verify_identity}
use dodb.Storage.Wal.Log.{last_lsn, checked_suc}
use dodb.Storage.Wal.Log.Order.{Below}
use dodb.Prelude.{
  >>=-eq-ok, fail_if, not, ℕ, suc, ◌<◌, ◌≤◌, ◌≡◌, List, [], ◌∷◌, some, ok, if◌then◌else◌, ◌==◌,
  length, arith,
}

pub last_lsn-Below :
    (lsn bound : ℕ) (frames : List Frame)
    → lsn < bound
    → Below bound frames
    → last_lsn lsn frames < bound
last_lsn-Below lsn bound [] h below = h
last_lsn-Below lsn bound (f ∷ fs) h below = last_lsn-Below f.record_lsn bound fs below.0 below.1

-- The last of rising LSNs is the greatest.
pub Ascending-last_lsn :
    (lsn : ℕ) (frames : List Frame)
    → Ascending (some lsn) frames
    → (lsn ≤ last_lsn lsn frames) × Below (suc (last_lsn lsn frames)) frames
Ascending-last_lsn lsn [] order = (omega arith, tt)
Ascending-last_lsn lsn (f ∷ fs) order =
    let (le, below) = Ascending-last_lsn f.record_lsn fs order.1 in
    (omega (arith, order.0), (omega arith, below))

pub checked_suc-fits : (n : ℕ) → suc n < U64 → checked_suc n ≡ ok (suc n)
unfolding checked_suc
checked_suc-fits n h = ground arith

-- The payload of an accepted first frame of the current version has 52 bytes.
pub length-accepted :
    (version : ℕ) (payload : List ℕ) (identity : WalIdentity) (history : ℕ)
    → version ≡ 2
    → verify_identity version payload identity ≡ ok history
    → length payload ≡ 52
unfolding verify_identity
length-accepted version payload identity history version_2 h =
    let (done, size, rest) =
      >>=-eq-ok (fail_if (not (length payload == (if version == 1 then 44 else 52))) corruption) _
        h in
    ground (arith, size)
