-- ===== src/Testkit/Reference/Transaction/Single.antt =====
-- reference.rs: `ReferenceDb::put`, a transaction of one write.
use dodb.Core.Key.{DocumentKey}
use dodb.Core.Revision.{RevisionState, revision}
use dodb.Core.Transaction.{
  TransactionCondition, TransactionMutation, TransactionRequest, condition_key, mutation_key,
}
use dodb.Core.Sets.{record_read, put_write}
use dodb.Core.Validate.Laws.{validate_iff}
use dodb.Bytes.{U64}
use dodb.Testkit.Reference.{ReferenceDb, get, satisfied, transact}
use dodb.Testkit.Reference.Admit.{Admitted, committed, transact_at-committed}
use dodb.Testkit.Reference.Transact.{transact_at-mutated}
use dodb.Testkit.Reference.Transaction.{begin, observe, put, commit, put_one}
use dodb.Prelude.{
  ℕ, suc, ◌-◌, ◌<◌, ◌≤◌, ◌≡◌, refl, ==_refl, false, List, [], ◌∷◌, some, ok, ltb, arith,
}

module _ (db : ReferenceDb) (key : DocumentKey) (value : List ℕ) where
  -- The database once the transaction has begun.
  abbrev begun : ReferenceDb
  begun = record db { next_txn_id = suc db.next_txn_id }

  abbrev request : TransactionRequest
  request = record {
    conditions = TransactionCondition.revision_equals key (revision (get db key)) ∷ [];
    mutations = TransactionMutation.put key value ∷ [];
  }

  request-Admitted : 1 ≤ db.next_lsn → Admitted begun request db.next_lsn
  unfolding satisfied condition_key mutation_key get
  request-Admitted started = (
    λ zero_lsn. omega arith,
    (validate_iff request).1 (refl, (tt, tt), (tt, tt)),
    (==_refl (revision (get begun key)), tt),
  )

  abbrev written : ReferenceDb
  written = committed begun request db.next_lsn

  put_one-written :
      1 ≤ db.next_lsn
      → suc db.next_lsn < U64
      → suc db.next_txn_id < U64
      → put_one db key value ≡ some (written, ok db.next_lsn)
  unfolding put_one begin put observe record_read put_write commit transact get
  put_one-written started lsn_fits txn_fits =
      let begins : ltb (U64 - 1) (suc db.next_txn_id) ≡ false = ground arith in
      rw
        (
          begins,
          transact_at-committed begun request db.next_lsn lsn_fits (request-Admitted started),
        )
        refl

-- A put always succeeds and is there: on a database whose next LSN is not 0, where neither the LSNs
-- nor the transaction ids are used up, `put` of a value under a key commits at the next LSN, and
-- the key has that value with that revision.
pub put_one-get :
    (db : ReferenceDb) (key : DocumentKey) (value : List ℕ)
    → 1 ≤ db.next_lsn
    → suc db.next_lsn < U64
    → suc db.next_txn_id < U64
    → (db' : ReferenceDb) × (put_one db key value ≡ some (db', ok db.next_lsn))
      × (get db' key ≡ RevisionState.present value db.next_lsn)
unfolding mutation_key
put_one-get db key value started lsn_fits txn_fits =
    let done =
      transact_at-committed (begun db key value) (request db key value) db.next_lsn lsn_fits
        (request-Admitted db key value started) in
    (
      written db key value,
      put_one-written db key value started lsn_fits txn_fits,
      (transact_at-mutated (begun db key value) (written db key value) (request db key value)
          db.next_lsn db.next_lsn lsn_fits done).0,
    )
