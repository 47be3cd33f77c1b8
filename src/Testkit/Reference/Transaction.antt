-- ===== src/Testkit/Reference/Transaction.antt =====
-- reference.rs: `ReferenceTransaction`, which collects reads and writes, and its commit. A step that
-- panics in the source returns `none`.
pub mod Optimistic
pub mod Single
use dodb.Core.Key.{DocumentKey, cmp}
use dodb.Core.Revision.{RevisionState, revision}
use dodb.Core.Transaction.{
  WriteIntent, TransactionCondition, TransactionMutation, TransactionRequest,
}
use dodb.Core.Sets.{ReadSet, WriteSet, record_read, get_read, put_write, delete_write, get_write}
use dodb.Core.Error.{Result, internal_invariant_violation}
use dodb.Bytes.{U64}
use dodb.Testkit.Reference.{ReferenceDb, get, transact}
use dodb.Prelude.{
  ℕ, suc, ◌-◌, List, [], ◌∷◌, ◌++◌, map, Option, none, some, ok, err, map_ok, ltb, if◌then◌else◌,
}

pub record ReferenceTransaction : Type 0 where
  pub txn_id : ℕ
  pub conditions : List TransactionCondition
  pub read_set : ReadSet
  pub write_set : WriteSet

-- `begin`, which panics when the transaction ids are used up.
unfoldable pub begin : ReferenceDb → Option (ReferenceDb × ReferenceTransaction)
begin db =
    if ltb (U64 - 1) (suc db.next_txn_id)
    then none
    else some (
      record db { next_txn_id = suc db.next_txn_id },
      record { txn_id = db.next_txn_id; conditions = []; read_set = []; write_set = [] },
    )

unfoldable pub observe : ReferenceDb → DocumentKey → ReferenceTransaction → ReferenceTransaction
observe db key txn = record txn { read_set = record_read key (revision (get db key)) txn.read_set }

-- The `match` on the write intent; `expect` on the recorded revision panics without one.
abbrev pub own_state : Option WriteIntent → Option ℕ → RevisionState → Option RevisionState
own_state none recorded observed = some observed
own_state (some (WriteIntent.put value)) (some revision) observed =
    some (RevisionState.present value revision)
own_state (some WriteIntent.delete) (some revision) observed = some (RevisionState.missing revision)
own_state (some intent) none observed = none

unfoldable pub read :
    ReferenceDb → DocumentKey → ReferenceTransaction → ReferenceTransaction × Option RevisionState
read db key txn =
    let recorded = observe db key txn in
    (
      recorded,
      own_state (get_write txn.write_set key) (get_read recorded.read_set key) (get db key),
    )

unfoldable pub put :
    ReferenceDb → DocumentKey → List ℕ → ReferenceTransaction → ReferenceTransaction
put db key value txn =
    let recorded = observe db key txn in
    record recorded { write_set = put_write key value recorded.write_set }

unfoldable pub delete : ReferenceDb → DocumentKey → ReferenceTransaction → ReferenceTransaction
delete db key txn =
    let recorded = observe db key txn in
    record recorded { write_set = delete_write key recorded.write_set }

abbrev pub push : TransactionCondition → ReferenceTransaction → ReferenceTransaction
push condition txn = record txn { conditions = txn.conditions ++ (condition ∷ []) }

abbrev pub revision_equals : DocumentKey → ℕ → ReferenceTransaction → ReferenceTransaction
revision_equals key expected = push (TransactionCondition.revision_equals key expected)

abbrev pub exists : DocumentKey → ReferenceTransaction → ReferenceTransaction
exists key = push (TransactionCondition.exists key)

abbrev pub not_exists : DocumentKey → ReferenceTransaction → ReferenceTransaction
not_exists key = push (TransactionCondition.not_exists key)

-- The closures of `commit`.
abbrev pub read_condition : DocumentKey × ℕ → TransactionCondition
read_condition (key, revision) = TransactionCondition.revision_equals key revision

abbrev pub write_mutation : DocumentKey × WriteIntent → TransactionMutation
write_mutation (key, WriteIntent.put value) = TransactionMutation.put key value
write_mutation (key, WriteIntent.delete) = TransactionMutation.delete key

abbrev pub request_of : ReferenceTransaction → TransactionRequest
request_of txn = record {
  conditions = map read_condition txn.read_set ++ txn.conditions;
  mutations = map write_mutation txn.write_set;
}

-- `commit`, whose result is always `Some` on success.
unfoldable pub commit : ReferenceDb → ReferenceTransaction → ReferenceDb × Result (Option ℕ)
commit db txn = let (db', result) = transact db (request_of txn) in (db', map_ok some result)

-- `ok_or_else` on the LSN of the commit.
abbrev pub commit_lsn : ReferenceDb × Result (Option ℕ) → ReferenceDb × Result ℕ
commit_lsn (db, ok (some lsn)) = (db, ok lsn)
commit_lsn (db, ok none) = (db, err internal_invariant_violation)
commit_lsn (db, err e) = (db, err e)

abbrev pub in_transaction :
    (ReferenceDb → ReferenceTransaction → ReferenceTransaction)
    → Option (ReferenceDb × ReferenceTransaction)
    → Option (ReferenceDb × Result ℕ)
in_transaction write none = none
in_transaction write (some (db, txn)) = some (commit_lsn (commit db (write db txn)))

-- `ReferenceDb::put` and `ReferenceDb::delete`
unfoldable pub put_one : ReferenceDb → DocumentKey → List ℕ → Option (ReferenceDb × Result ℕ)
put_one db key value = in_transaction (λ d. put d key value) (begin db)

unfoldable pub delete_one : ReferenceDb → DocumentKey → Option (ReferenceDb × Result ℕ)
delete_one db key = in_transaction (λ d. delete d key) (begin db)
