-- ===== src/Testkit/Tests.antt =====
-- The theorems on the reference database at a database of two documents and a deleted key.
use dodb.Core.Key.{DocumentKey, cmp, cmp_bytes}
use dodb.Core.Revision.{RevisionState, revision, is_missing, observed}
use dodb.Core.Transaction.{
  TransactionCondition, TransactionMutation, TransactionRequest, condition_key, mutation_key,
  expectation,
}
use dodb.Core.Sets.{record_read, get_read, put_write}
use dodb.Core.Validate.{validate, insert_all}
use dodb.Core.Error.{Error, Result, invalid_request}
use dodb.Testkit.Reference.{
  Document, ReferenceDb, get, satisfied, check_conditions, apply_mutations, admit, transact_at,
  transact, documents, not_after, query, scan,
}
use dodb.Testkit.Reference.Admit.{Admitted, FirstUnmet, transact_at_iff}
use dodb.Testkit.Reference.Transact.{
  transact_at-err, state_of, transact_at-mutated, IsDb, transact_at-IsDb,
}
use dodb.Testkit.Reference.Documents.{Has}
use dodb.Testkit.Reference.Pages.{last, scan-next}
use dodb.Testkit.Reference.Query.{query_sound, query_complete}
use dodb.Testkit.Reference.Transaction.{ReferenceTransaction, observe, put, commit, put_one}
use dodb.Testkit.Reference.Transaction.Optimistic.{commit-current}
use dodb.Testkit.Reference.Transaction.Single.{put_one-get}
use dodb.Prelude.{
  ℕ, ◌+◌, ◌<◌, ◌≡◌, ◌↔◌, ◌⊎◌, refl, [], ◌∷◌, ◌++◌, none, some, ok, false, err, length, All, arith,
}

-- The keys a/1, a/2, a/3 and b/1.
abbrev a1 : DocumentKey
a1 = record { pk = 97 ∷ []; sk = 49 ∷ [] }

abbrev a2 : DocumentKey
a2 = record { pk = 97 ∷ []; sk = 50 ∷ [] }

abbrev a3 : DocumentKey
a3 = record { pk = 97 ∷ []; sk = 51 ∷ [] }

abbrev b1 : DocumentKey
b1 = record { pk = 98 ∷ []; sk = 49 ∷ [] }

abbrev db : ReferenceDb
db = record {
  states =
      (a1, RevisionState.present (1 ∷ []) 3)
      ∷ (a2, RevisionState.missing 4)
      ∷ (a3, RevisionState.present (3 ∷ []) 5)
      ∷ (b1, RevisionState.present (9 ∷ []) 2)
      ∷ [];
  next_lsn = 6;
  next_txn_id = 1;
}

db-IsDb : IsDb db
unfolding cmp cmp_bytes revision
db-IsDb = record {
  sorted = ((refl, (refl, (refl, tt))), ((refl, (refl, tt)), ((refl, tt), (tt, tt))));
  started = omega arith;
  below = (omega arith, (omega arith, (omega arith, (omega arith, tt))));
}

-- A put of a/2 if a/1 still has revision 3, with a deletion of b/1.
abbrev request : TransactionRequest
request = record {
  conditions = TransactionCondition.revision_equals a1 3 ∷ [];
  mutations = TransactionMutation.put a2 (7 ∷ []) ∷ TransactionMutation.delete b1 ∷ [];
}

abbrev after : ReferenceDb
after = (transact_at db request 6).0

committed : transact_at db request 6 ≡ (after, ok 6)
unfolding transact_at admit validate insert_all check_conditions satisfied condition_key
    mutation_key apply_mutations get revision cmp cmp_bytes
committed = refl

transact_at_iff_example : ((transact_at db request 6).1 ≡ ok 6) ↔ Admitted db request 6
transact_at_iff_example = transact_at_iff db request 6 (omega arith)

transact_at-mutated_example :
    All (λ (m : TransactionMutation). get after (mutation_key m) ≡ state_of 6 m) request.mutations
transact_at-mutated_example = transact_at-mutated db after request 6 6 (omega arith) committed

transact_at-IsDb_example : IsDb (transact_at db request 6).0
transact_at-IsDb_example = transact_at-IsDb db request 6 (omega arith) db-IsDb

-- A put of a/1 on the condition that a/2 exists.
abbrev refused : TransactionRequest
refused = record {
  conditions = TransactionCondition.exists a2 ∷ [];
  mutations = TransactionMutation.put a1 (8 ∷ []) ∷ [];
}

abbrev error_of : Result ℕ → Error
error_of (ok lsn) = invalid_request
error_of (err e) = e

abbrev conflict_found : Error
conflict_found = error_of ((transact_at db refused 6).1)

conflicted : transact_at db refused 6 ≡ (db, err conflict_found)
unfolding transact_at admit validate insert_all check_conditions satisfied condition_key
    mutation_key get revision is_missing observed expectation cmp cmp_bytes
conflicted = refl

transact_at-err_example :
    (db ≡ db)
    × ((conflict_found ≡ invalid_request) ⊎ FirstUnmet db refused.conditions conflict_found)
transact_at-err_example = transact_at-err db db refused 6 conflict_found (omega arith) conflicted

abbrev doc_a1 : Document
doc_a1 = record { key = a1; value = 1 ∷ []; revision = 3 }

abbrev doc_a3 : Document
doc_a3 = record { key = a3; value = 3 ∷ []; revision = 5 }

first_page : last (scan db none 1) ≡ some doc_a1
unfolding scan documents
first_page = refl

scan-next_example : scan db none (1 + 5) ≡ scan db none 1 ++ scan db (some a1) 5
scan-next_example = scan-next db none 1 5 doc_a1 db-IsDb.sorted first_page

query_sound_example :
    All
      (λ (d : Document).
        (get db d.key ≡ RevisionState.present d.value d.revision)
        × (d.key.pk ≡ 97 ∷ [])
        × (not_after cmp_bytes none d.key.sk ≡ false))
      (query db (97 ∷ []) none 5)
query_sound_example = query_sound db (97 ∷ []) none 5 db-IsDb.sorted

query_short : length (query db (97 ∷ []) (some (49 ∷ [])) 5) < 5
unfolding query documents cmp_bytes
query_short = omega arith

a3_present : get db a3 ≡ RevisionState.present (3 ∷ []) 5
unfolding get cmp cmp_bytes
a3_present = refl

a3_behind : not_after cmp_bytes (some (49 ∷ [])) a3.sk ≡ false
unfolding cmp_bytes
a3_behind = refl

query_complete_example : Has doc_a3 (query db (97 ∷ []) (some (49 ∷ [])) 5)
query_complete_example =
    query_complete db (97 ∷ []) (some (49 ∷ [])) 5 doc_a3 query_short a3_present refl a3_behind

abbrev txn : ReferenceTransaction
txn = put db a1 (5 ∷ []) (record { txn_id = 1; conditions = []; read_set = []; write_set = [] })

abbrev updated : ReferenceDb
updated = (commit db txn).0

txn_committed : commit db txn ≡ (updated, ok (some 6))
unfolding commit transact transact_at admit validate insert_all check_conditions satisfied
    condition_key mutation_key apply_mutations get revision cmp cmp_bytes put observe record_read
    put_write
txn_committed = refl

txn_recorded : get_read txn.read_set a1 ≡ some 3
unfolding get_read put observe record_read put_write get revision cmp cmp_bytes
txn_recorded = refl

commit-current_example : revision (get db a1) ≡ 3
commit-current_example = commit-current db updated txn (some 6) a1 3 txn_committed txn_recorded

put_one-get_example :
    (db' : ReferenceDb) × (put_one db a2 (4 ∷ []) ≡ some (db', ok 6))
    × (get db' a2 ≡ RevisionState.present (4 ∷ []) 6)
put_one-get_example = put_one-get db a2 (4 ∷ []) (omega arith) (omega arith) (omega arith)
