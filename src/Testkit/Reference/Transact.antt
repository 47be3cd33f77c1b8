-- ===== src/Testkit/Reference/Transact.antt =====
-- reference.rs: what `transact_at` changes.
use dodb.Core.Key.{DocumentKey, cmp}
use dodb.Core.Key.Order.{cmp-IsOrder}
use dodb.Core.Revision.{RevisionState, revision}
use dodb.Core.Transaction.{TransactionMutation, TransactionRequest, mutation_key}
use dodb.Core.Validate.Laws.{NotIn, Distinct, validate_iff}
use dodb.Core.Error.{Error, Result, invalid_request}
use dodb.Bytes.{U64}
use dodb.Map
use dodb.Map.{find, Sorted}
use dodb.Map.Lookup.{find-insert, find-insert_other, insert-Sorted, All-insert}
use dodb.Testkit.Reference.{
  ReferenceDb, States, or_missing, get, mutated, apply_mutations, admit, transact_at,
}
use dodb.Testkit.Reference.Admit.{FirstUnmet, committed, transact_at-cases}
use dodb.Prelude.{
  ℕ, suc, ◌-◌, ◌<◌, ◌≤◌, ◌≡◌, ◌⊎◌, inl, inr, refl, sym, subst, ap, ◌∙◌, List, [], ◌∷◌, map, some,
  ok, err, ltb, All, All-map, err-injective, Result-cases, Bool-cases, arith,
}

-- A transaction that fails changes nothing, where its LSN is not the last one: if `transact_at`
-- returns an error, the database is as it was, and the error is that of an invalid request, or it
-- is the conflict of the first condition that the database does not meet, with the state observed
-- at its key.
pub transact_at-err :
    (db db' : ReferenceDb) (request : TransactionRequest) (commit_lsn : ℕ) (e : Error)
    → suc commit_lsn < U64
    → transact_at db request commit_lsn ≡ (db', err e)
    → (db' ≡ db) × ((e ≡ invalid_request) ⊎ FirstUnmet db request.conditions e)
transact_at-err db db' request commit_lsn e fits h =
    elim (transact_at-cases db request commit_lsn fits) [
      | inl (admitted, done) ↦
          let bad = ap (λ (r : ReferenceDb × Result ℕ). r.1) (sym done ∙ h) in absurd cc
      | inr (e', refused, why) ↦
          let same = sym h ∙ refused in
          let same_e : e ≡ e' = err-injective (ap (λ (r : ReferenceDb × Result ℕ). r.1) same) in
          (
            ap (λ (r : ReferenceDb × Result ℕ). r.0) same,
            subst (λ x. (x ≡ invalid_request) ⊎ FirstUnmet db request.conditions x) (sym same_e)
                why,
          )
    ]

-- The state that a mutation leaves.
abbrev pub state_of : ℕ → TransactionMutation → RevisionState
state_of lsn (TransactionMutation.put key value) = RevisionState.present value lsn
state_of lsn (TransactionMutation.delete key) = RevisionState.missing lsn

mutated-mutation_key :
    (lsn : ℕ) (m : TransactionMutation) → mutated lsn m ≡ (mutation_key m, state_of lsn m)
unfolding mutation_key
mutated-mutation_key lsn (TransactionMutation.put key value) = refl
mutated-mutation_key lsn (TransactionMutation.delete key) = refl

apply_mutations-cons :
    (lsn : ℕ) (m : TransactionMutation) (ms : List TransactionMutation) (states : States)
    → apply_mutations lsn (m ∷ ms) states
      ≡ apply_mutations lsn ms (Map.insert cmp (mutation_key m) (state_of lsn m) states)
unfolding apply_mutations
apply_mutations-cons lsn m ms states =
    ap (λ (e : DocumentKey × RevisionState). apply_mutations lsn ms (Map.insert cmp e.0 e.1 states))
      (mutated-mutation_key lsn m)

find-apply_mutations_other :
    (lsn : ℕ) (ms : List TransactionMutation) (states : States) (key : DocumentKey)
    → NotIn key (map mutation_key ms)
    → find cmp key (apply_mutations lsn ms states) ≡ find cmp key states
unfolding apply_mutations
find-apply_mutations_other lsn [] states key apart = refl
find-apply_mutations_other lsn (m ∷ ms) states key apart =
    ap (find cmp key) (apply_mutations-cons lsn m ms states)
    ∙ find-apply_mutations_other lsn ms _ key apart.1
    ∙ find-insert_other cmp cmp-IsOrder (mutation_key m) key (state_of lsn m) states
        (λ e. apart.0 (sym e))

find-apply_mutations :
    (lsn : ℕ) (ms : List TransactionMutation) (states : States)
    → Distinct (map mutation_key ms)
    → All
        (λ (m : TransactionMutation).
          find cmp (mutation_key m) (apply_mutations lsn ms states) ≡ some (state_of lsn m))
        ms
find-apply_mutations lsn [] states distinct = tt
find-apply_mutations lsn (m ∷ ms) states distinct =
    let next = Map.insert cmp (mutation_key m) (state_of lsn m) states in
    let same = apply_mutations-cons lsn m ms states in
    (
      ap (find cmp (mutation_key m)) same
          ∙ find-apply_mutations_other lsn ms next (mutation_key m) distinct.0
          ∙ find-insert cmp cmp-IsOrder (mutation_key m) (state_of lsn m) states,
      All-map
          (λ (x : TransactionMutation)
              (h : find cmp (mutation_key x) (apply_mutations lsn ms next) ≡ some (state_of lsn x)).
            ap (find cmp (mutation_key x)) same ∙ h)
          ms (find-apply_mutations lsn ms next distinct.1),
    )

-- What a commit writes: where the LSN is not the last one, after a transaction that commits, every
-- key with a mutation has the state of that mutation, with the LSN of the commit as its revision.
pub transact_at-mutated :
    (db db' : ReferenceDb) (request : TransactionRequest) (commit_lsn result : ℕ)
    → suc commit_lsn < U64
    → transact_at db request commit_lsn ≡ (db', ok result)
    → All
        (λ (m : TransactionMutation). get db' (mutation_key m) ≡ state_of commit_lsn m)
        request.mutations
unfolding get
transact_at-mutated db db' request commit_lsn result fits h =
    elim (transact_at-cases db request commit_lsn fits) [
      | inl (admitted, done) ↦
          let db_eq : committed db request commit_lsn ≡ db' =
            ap (λ (r : ReferenceDb × Result ℕ). r.0) (sym done ∙ h) in
          let (some_part, distinct, rest) = (validate_iff request).0 admitted.1 in
          All-map
            (λ (m : TransactionMutation)
                (found : find cmp (mutation_key m)
                    (apply_mutations commit_lsn request.mutations db.states)
                  ≡ some (state_of commit_lsn m)).
              ap (λ (d : ReferenceDb). or_missing (find cmp (mutation_key m) d.states)) (sym db_eq)
              ∙ ap or_missing found)
            request.mutations (find-apply_mutations commit_lsn request.mutations db.states distinct)
      | inr (e', refused, why) ↦
          let bad = ap (λ (r : ReferenceDb × Result ℕ). r.1) (sym refused ∙ h) in absurd cc
    ]

-- A key that a transaction has no mutation for keeps its state, whether the transaction commits or
-- fails, also at the last LSN.
pub transact_at-unchanged :
    (db : ReferenceDb) (request : TransactionRequest) (commit_lsn : ℕ) (key : DocumentKey)
    → NotIn key (map mutation_key request.mutations)
    → get (transact_at db request commit_lsn).0 key ≡ get db key
unfolding get transact_at
transact_at-unchanged db request commit_lsn key apart =
    let same =
      ap or_missing (find-apply_mutations_other commit_lsn request.mutations db.states key apart) in
    elim (Result-cases (admit db request commit_lsn)) [
      | inl (u, admitted) ↦ elim (Bool-cases (ltb (U64 - 1) (suc commit_lsn))) [
        | inl over ↦ rw (admitted, over) same
        | inr fits ↦ rw (admitted, fits) same
      ]
      | inr (e, refused) ↦ rw refused refl
    ]

-- The state of a database is in order: the keys go up, and no revision has reached the next LSN.
pub record IsDb (db : ReferenceDb) : Type 0 where
  pub sorted : Sorted cmp db.states
  pub started : 1 ≤ db.next_lsn
  pub below : All (λ (e : DocumentKey × RevisionState). revision e.1 < db.next_lsn) db.states

apply_mutations-Sorted :
    (lsn : ℕ) (ms : List TransactionMutation) (states : States)
    → Sorted cmp states
    → Sorted cmp (apply_mutations lsn ms states)
unfolding apply_mutations
apply_mutations-Sorted lsn [] states sorted = sorted
apply_mutations-Sorted lsn (m ∷ ms) states sorted =
    let (key, state) = mutated lsn m in
    apply_mutations-Sorted lsn ms (Map.insert cmp key state states)
      (insert-Sorted cmp cmp-IsOrder key state states sorted)

apply_mutations-below :
    (lsn bound : ℕ) (ms : List TransactionMutation) (states : States)
    → lsn < bound
    → All (λ (e : DocumentKey × RevisionState). revision e.1 < bound) states
    → All
        (λ (e : DocumentKey × RevisionState). revision e.1 < bound)
        (apply_mutations lsn ms states)
unfolding apply_mutations revision
apply_mutations-below lsn bound [] states small below = below
apply_mutations-below lsn bound (TransactionMutation.put key value ∷ ms) states small below =
    apply_mutations-below lsn bound ms _ small (
      All-insert cmp cmp-IsOrder (λ (e : DocumentKey × RevisionState). revision e.1 < bound) key
        (RevisionState.present value lsn) states small below)
apply_mutations-below lsn bound (TransactionMutation.delete key ∷ ms) states small below =
    apply_mutations-below lsn bound ms _ small (
      All-insert cmp cmp-IsOrder (λ (e : DocumentKey × RevisionState). revision e.1 < bound) key
        (RevisionState.missing lsn) states small below)

-- Every transaction keeps a database in order, whether it commits or fails, where its LSN is not
-- the last one: the keys go up, and every revision is below the next LSN.
pub transact_at-IsDb :
    (db : ReferenceDb) (request : TransactionRequest) (commit_lsn : ℕ)
    → suc commit_lsn < U64
    → IsDb db
    → IsDb (transact_at db request commit_lsn).0
transact_at-IsDb db request commit_lsn fits h =
    elim (transact_at-cases db request commit_lsn fits) [
      | inl (admitted, done) ↦
          let next = (committed db request commit_lsn).next_lsn in
          let at_least : (db.next_lsn ≤ next) × (commit_lsn < next) = ground arith in
          subst IsDb (sym (ap (λ (r : ReferenceDb × Result ℕ). r.0) done)) (record {
            sorted = apply_mutations-Sorted commit_lsn request.mutations db.states h.sorted;
            started = omega (arith, h.started, at_least.0);
            below = apply_mutations-below commit_lsn next request.mutations db.states at_least.1 (
                All-map
                  (λ (e : DocumentKey × RevisionState) (small : revision e.1 < db.next_lsn).
                    omega (arith, at_least.0))
                  db.states h.below);
          })
      | inr (e, refused, why) ↦
          subst IsDb (sym (ap (λ (r : ReferenceDb × Result ℕ). r.0) refused)) h
    ]
