-- ===== src/Testkit/Reference/Transaction/Optimistic.antt =====
-- reference.rs: what a transaction sees, and when its commit goes through.
use dodb.Core.Key.{DocumentKey, cmp}
use dodb.Core.Key.Order.{cmp-IsOrder}
use dodb.Core.Revision.{RevisionState, revision}
use dodb.Core.Transaction.{WriteIntent, condition_key}
use dodb.Core.Sets.{ReadSet, record_read, get_read, put_write, get_write}
use dodb.Core.Error.{Result}
use dodb.Map.Lookup.{find-insert, find-All}
use dodb.Testkit.Reference.{ReferenceDb, get, satisfied, admit, transact_at, transact}
use dodb.Testkit.Reference.Admit.{Satisfied, admit-Admitted}
use dodb.Testkit.Reference.Transaction.{
  ReferenceTransaction, observe, read, put, read_condition, request_of, commit,
}
use dodb.Prelude.{
  ℕ, ◌≡◌, inl, inr, refl, ap, List, [], ◌∷◌, ◌++◌, map, Option, none, some, ok, All, Result-cases,
  arith,
}

All-left {ℓ κ} : {A : Type ℓ} (P : A → Type κ) (xs ys : List A) → All P (xs ++ ys) → All P xs
All-left P [] ys all = tt
All-left P (x ∷ xs) ys all = (all.0, All-left P xs ys all.1)

All-unmap :
    {A B : Type 0} (P : B → Type 0) (f : A → B) (xs : List A)
    → All P (map f xs)
    → All (λ x. P (f x)) xs
All-unmap P f [] all = tt
All-unmap P f (x ∷ xs) all = (all.0, All-unmap P f xs all.1)

-- The revision recorded for a key is that of the database.
abbrev IsCurrent : ReferenceDb → DocumentKey × ℕ → Type 0
IsCurrent db entry = revision (get db entry.0) ≡ entry.1

reads-IsCurrent :
    (db : ReferenceDb) (reads : ReadSet)
    → Satisfied db (map read_condition reads)
    → All (IsCurrent db) reads
unfolding satisfied condition_key
reads-IsCurrent db [] met = tt
reads-IsCurrent db ((key, r) ∷ reads) met = (ground (arith, met.0), reads-IsCurrent db reads met.1)

-- No lost updates: if the commit of a transaction succeeds, then every revision it has recorded, of
-- a key it read or wrote, is still the revision of that key in the database it commits to.
pub commit-current :
    (db db' : ReferenceDb) (txn : ReferenceTransaction) (lsn : Option ℕ) (key : DocumentKey) (r : ℕ)
    → commit db txn ≡ (db', ok lsn)
    → get_read txn.read_set key ≡ some r
    → revision (get db key) ≡ r
unfolding commit transact transact_at get_read
commit-current db db' txn lsn key r h recorded =
    elim (Result-cases (admit db (request_of txn) db.next_lsn)) [
      | inl (u, ok_admit) ↦
          let admitted = admit-Admitted db (request_of txn) db.next_lsn ok_admit in
          let met = All-left _ (map read_condition txn.read_set) txn.conditions admitted.2 in
          find-All cmp cmp-IsOrder (IsCurrent db) key r txn.read_set
            (reads-IsCurrent db txn.read_set met) recorded
      | inr (e, refused) ↦
          let bad = ap (λ (x : ReferenceDb × Result (Option ℕ)). x.1) (rw refused at h) in absurd cc
    ]

get_read-record_read :
    (key : DocumentKey) (r : ℕ) (reads : ReadSet)
    → get_read reads key ≡ none
    → get_read (record_read key r reads) key ≡ some r
unfolding get_read record_read
get_read-record_read key r reads fresh = rw fresh (find-insert cmp cmp-IsOrder key r reads)

get_read-record_read_again :
    (key : DocumentKey) (r r' : ℕ) (reads : ReadSet)
    → get_read reads key ≡ some r
    → get_read (record_read key r' reads) key ≡ some r
unfolding get_read record_read
get_read-record_read_again key r r' reads seen = rw seen seen

-- A transaction reads its own writes: after `put` of a key that it has not seen, `read` of the key
-- returns the value that was put, with the revision that the key had in the database at the time of
-- the `put`, whatever the database has become.
pub read-put :
    (db later : ReferenceDb) (key : DocumentKey) (value : List ℕ) (txn : ReferenceTransaction)
    → get_read txn.read_set key ≡ none
    → (read later key (put db key value txn)).1
      ≡ some (RevisionState.present value (revision (get db key)))
unfolding read put observe get_write put_write
read-put db later key value txn fresh =
    let r = revision (get db key) in
    let seen = get_read-record_read key r txn.read_set fresh in
    rw
      (
        find-insert cmp cmp-IsOrder key (WriteIntent.put value) txn.write_set,
        get_read-record_read_again key r (revision (get later key)) (record_read key r txn.read_set)
            seen,
      )
      refl
