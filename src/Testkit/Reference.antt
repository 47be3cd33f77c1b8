-- ===== src/Testkit/Reference.antt =====
-- crates/dodb-testkit/src/reference.rs: the reference database, a map from keys to their committed
-- states. An operation returns the database as it leaves it, also when it fails.
pub mod Admit
pub mod Transact
pub mod Documents
pub mod Pages
pub mod Query
pub mod Transaction
use dodb.Core.Key.{DocumentKey, cmp, cmp_bytes}
use dodb.Core.Revision.{RevisionState, revision, is_missing, observed}
use dodb.Core.Transaction.{
  WriteIntent, TransactionCondition, TransactionMutation, TransactionRequest, condition_key,
  expectation,
}
use dodb.Core.Sets.{ReadSet, WriteSet, record_read, get_read, put_write, delete_write, get_write}
use dodb.Core.Validate.{validate}
use dodb.Core.Error.{Result, invalid_request, conflict, internal_invariant_violation}
use dodb.Bytes.{U64}
use dodb.Map
use dodb.Map.{find}
use dodb.Prelude.{
  ℕ, suc, ◌+◌, ◌-◌, Bool, true, false, not, ◌||◌, List, [], ◌∷◌, ◌++◌, map, Option, none, some,
  Ordering, ok, err, ◌>>=◌, ◌>>◌, fail_if, ◌==◌, ltb, leb, length, take, if◌then◌else◌,
}

pub record Document : Type 0 where
  pub key : DocumentKey
  pub value : List ℕ
  pub revision : ℕ

-- `BTreeMap<DocumentKey, RevisionState>`
abbrev pub States : Type 0
States = List (DocumentKey × RevisionState)

pub record ReferenceDb : Type 0 where
  pub states : States
  pub next_lsn : ℕ
  pub next_txn_id : ℕ

abbrev pub new : ReferenceDb
new = record { states = []; next_lsn = 1; next_txn_id = 1 }

-- `unwrap_or_else(|| RevisionState::missing(Revision::ZERO))`
abbrev pub or_missing : Option RevisionState → RevisionState
or_missing none = RevisionState.missing 0
or_missing (some state) = state

unfoldable pub get : ReferenceDb → DocumentKey → RevisionState
get db key = or_missing (find cmp key db.states)

unfoldable pub satisfied : TransactionCondition → RevisionState → Bool
satisfied (TransactionCondition.revision_equals key expected) actual = revision actual == expected
satisfied (TransactionCondition.exists key) actual = not (is_missing actual)
satisfied (TransactionCondition.not_exists key) actual = is_missing actual

-- The loop over the conditions.
unfoldable pub check_conditions : ReferenceDb → List TransactionCondition → Result (Unit {0})
check_conditions db [] = ok tt
check_conditions db (condition ∷ conditions) = do
  let actual = get db (condition_key condition)
  fail_if (not (satisfied condition actual)) (
      conflict (record {
        key = condition_key condition;
        expected = expectation condition;
        actual = observed actual;
      }))
  check_conditions db conditions

-- The state that a mutation leaves at its key.
abbrev pub mutated : ℕ → TransactionMutation → DocumentKey × RevisionState
mutated revision (TransactionMutation.put key value) = (key, RevisionState.present value revision)
mutated revision (TransactionMutation.delete key) = (key, RevisionState.missing revision)

-- The loop over the mutations.
unfoldable pub apply_mutations : ℕ → List TransactionMutation → States → States
apply_mutations revision [] states = states
apply_mutations revision (mutation ∷ mutations) states =
    let (key, state) = mutated revision mutation in
    apply_mutations revision mutations (Map.insert cmp key state states)

-- The checks of `transact_at` before it writes.
unfoldable pub admit : ReferenceDb → TransactionRequest → ℕ → Result (Unit {0})
admit db request commit_lsn = do
  fail_if (commit_lsn == 0) invalid_request
  validate request
  check_conditions db request.conditions

-- `transact_at` from the writes on: `checked_add` comes after them.
abbrev pub applied : ReferenceDb → TransactionRequest → ℕ → ReferenceDb × Result ℕ
applied db request commit_lsn =
    let states = apply_mutations commit_lsn request.mutations db.states in
    if ltb (U64 - 1) (suc commit_lsn)
    then (record db { states = states }, err internal_invariant_violation)
    else (
      record db {
        states = states;
        next_lsn = if ltb db.next_lsn (suc commit_lsn) then suc commit_lsn else db.next_lsn;
      },
      ok commit_lsn,
    )

abbrev pub if_admitted :
    ReferenceDb → TransactionRequest → ℕ → Result (Unit {0}) → ReferenceDb × Result ℕ
if_admitted db request commit_lsn (ok u) = applied db request commit_lsn
if_admitted db request commit_lsn (err e) = (db, err e)

unfoldable pub transact_at : ReferenceDb → TransactionRequest → ℕ → ReferenceDb × Result ℕ
transact_at db request commit_lsn = if_admitted db request commit_lsn (admit db request commit_lsn)

unfoldable pub transact : ReferenceDb → TransactionRequest → ReferenceDb × Result ℕ
unfolding transact_at
transact db request = transact_at db request db.next_lsn

unfoldable pub transact_get : ReferenceDb → List DocumentKey → List RevisionState
transact_get db keys = map (get db) keys

-- The `match` on the state: a document if there is a value.
abbrev pub document_of : DocumentKey × RevisionState → Option Document
document_of (key, RevisionState.present value revision) =
    some (record { key = key; value = value; revision = revision })
document_of (key, RevisionState.missing revision) = none

-- The `filter_map`, with the test that skips an entry.
abbrev pub cons_option : Option Document → List Document → List Document
cons_option none documents = documents
cons_option (some document) documents = document ∷ documents

unfoldable pub documents : (DocumentKey → Bool) → States → List Document
documents skip [] = []
documents skip (entry ∷ states) =
    let rest = documents skip states in
    if skip entry.0 then rest else cons_option (document_of entry) rest

-- `key <= cursor`, if there is a cursor.
abbrev pub not_after : {K : Type 0} → (K → K → Ordering) → Option K → K → Bool
not_after cmp none key = false
not_after cmp (some cursor) key = Map.by_order (cmp key cursor) true true false

abbrev pub differs : List ℕ → List ℕ → Bool
differs a b = Map.by_order (cmp_bytes a b) true false true

unfoldable pub query : ReferenceDb → List ℕ → Option (List ℕ) → ℕ → List Document
query db pk exclusive_after_sk limit = take limit (
    documents
      (λ (key : DocumentKey). differs key.pk pk || not_after cmp_bytes exclusive_after_sk key.sk)
      db.states)

unfoldable pub scan : ReferenceDb → Option DocumentKey → ℕ → List Document
scan db exclusive_after_key limit =
    take limit (documents (not_after cmp exclusive_after_key) db.states)

abbrev pub count_present : States → ℕ
count_present [] = 0
count_present ((key, RevisionState.present value revision) ∷ states) = suc (count_present states)
count_present ((key, RevisionState.missing revision) ∷ states) = count_present states

unfoldable pub present_count : ReferenceDb → ℕ
present_count db = count_present db.states
