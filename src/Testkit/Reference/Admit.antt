-- ===== src/Testkit/Reference/Admit.antt =====
-- reference.rs: when `transact_at` commits.
use dodb.Core.Revision.{observed}
use dodb.Core.Transaction.{TransactionCondition, TransactionRequest, condition_key, expectation}
use dodb.Core.Validate.{validate}
use dodb.Core.Validate.Laws.{validate-err}
use dodb.Core.Error.{Error, Result, invalid_request, conflict}
use dodb.Bytes.{U64}
use dodb.Testkit.Reference.{
  ReferenceDb, get, satisfied, check_conditions, apply_mutations, admit, transact_at,
}
use dodb.Prelude.{
  ℕ, suc, ◌-◌, ◌<◌, ◌≡◌, ◌≢◌, ◌↔◌, ◌⊎◌, inl, inr, refl, sym, ap, ◌∙◌, true, false, not, List, [],
  ◌∷◌, ◌++◌, ok, err, fail_if, ◌==◌, ltb, All, >>=-eq-ok, err-injective, Result-cases, Bool-cases,
  if◌then◌else◌, arith,
}

-- The database meets every one of the conditions.
abbrev pub Satisfied : ReferenceDb → List TransactionCondition → Type 0
Satisfied db conditions =
    All (λ (c : TransactionCondition). satisfied c (get db (condition_key c)) ≡ true) conditions

check_conditions-ok :
    (db : ReferenceDb) (conditions : List TransactionCondition)
    → check_conditions db conditions ≡ ok tt
    → Satisfied db conditions
unfolding check_conditions
check_conditions-ok db [] h = tt
check_conditions-ok db (c ∷ cs) h =
    let (u, first, rest) =
      >>=-eq-ok (fail_if (not (satisfied c (get db (condition_key c)))) _) _ h in
    (ground (arith, first), check_conditions-ok db cs rest)

ok-check_conditions :
    (db : ReferenceDb) (conditions : List TransactionCondition)
    → Satisfied db conditions
    → check_conditions db conditions ≡ ok tt
unfolding check_conditions
ok-check_conditions db [] h = refl
ok-check_conditions db (c ∷ cs) h = rw (h.0) (ok-check_conditions db cs h.1)

-- The conflict that an unsatisfied condition gives.
abbrev pub conflict_of : ReferenceDb → TransactionCondition → Error
conflict_of db c = conflict (record {
  key = condition_key c;
  expected = expectation c;
  actual = observed (get db (condition_key c));
})

-- The first condition that the database does not meet, with those before it.
pub record FirstUnmet (db : ReferenceDb) (conditions : List TransactionCondition) (e : Error)
    : Type 0 where
  pub before : List TransactionCondition
  pub unmet : TransactionCondition
  pub behind : List TransactionCondition
  pub split : conditions ≡ before ++ (unmet ∷ behind)
  pub met : Satisfied db before
  pub fails : satisfied unmet (get db (condition_key unmet)) ≡ false
  pub reported : e ≡ conflict_of db unmet

check_conditions-err :
    (db : ReferenceDb) (conditions : List TransactionCondition) (e : Error)
    → check_conditions db conditions ≡ err e
    → FirstUnmet db conditions e
unfolding check_conditions
check_conditions-err db [] e h = cc
check_conditions-err db (c ∷ cs) e h = elim (Bool-cases (satisfied c (get db (condition_key c)))) [
  | inl holds ↦
      let rest = check_conditions-err db cs e (rw holds at h) in
      record {
        before = c ∷ rest.before;
        unmet = rest.unmet;
        behind = rest.behind;
        split = ap (λ l. c ∷ l) rest.split;
        met = (holds, rest.met);
        fails = rest.fails;
        reported = rest.reported;
      }
  | inr fails ↦ record {
    before = [];
    unmet = c;
    behind = cs;
    split = refl;
    met = tt;
    fails = fails;
    reported = sym (err-injective (rw fails at h));
  }
]

module _ (db : ReferenceDb) (request : TransactionRequest) (commit_lsn : ℕ) where
  -- What a request must fulfil to commit.
  abbrev pub Admitted : Type 0
  Admitted = (commit_lsn ≢ 0) × (validate request ≡ ok tt) × Satisfied db request.conditions

  pub admit-Admitted : admit db request commit_lsn ≡ ok tt → Admitted
  unfolding admit
  admit-Admitted h =
      let (u, nonzero, h1) = >>=-eq-ok (fail_if (commit_lsn == 0) invalid_request) _ h in
      let (u', valid, h2) = >>=-eq-ok (validate request) _ h1 in
      (λ e. ground (arith, nonzero), valid, check_conditions-ok db request.conditions h2)

  Admitted-admit : Admitted → admit db request commit_lsn ≡ ok tt
  unfolding admit
  Admitted-admit (nonzero, valid, met) =
      let not_0 : (commit_lsn == 0) ≡ false = ground (arith, nonzero) in
      rw (not_0, valid) (ok-check_conditions db request.conditions met)

  admit-err :
      (e : Error)
      → admit db request commit_lsn ≡ err e
      → (e ≡ invalid_request) ⊎ FirstUnmet db request.conditions e
  unfolding admit
  admit-err e h = elim (Bool-cases (commit_lsn == 0)) [
    | inl zero_lsn ↦ inl (sym (err-injective (rw zero_lsn at h)))
    | inr nonzero ↦ elim (Result-cases (validate request)) [
      | inl (u, valid) ↦
          inr (check_conditions-err db request.conditions e (rw (nonzero, valid) at h))
      | inr (e', invalid) ↦
          inl (sym (err-injective (rw (nonzero, invalid) at h)) ∙ validate-err request e' invalid)
    ]
  ]

  -- What a transaction that is admitted does.
  abbrev pub committed : ReferenceDb
  committed = record db {
    states = apply_mutations commit_lsn request.mutations db.states;
    next_lsn = if ltb db.next_lsn (suc commit_lsn) then suc commit_lsn else db.next_lsn;
  }

  pub transact_at-committed :
      suc commit_lsn < U64
      → Admitted
      → transact_at db request commit_lsn ≡ (committed, ok commit_lsn)
  unfolding transact_at
  transact_at-committed fits admitted =
      let in_range : ltb (U64 - 1) (suc commit_lsn) ≡ false = ground arith in
      rw (Admitted-admit admitted, in_range) refl

  transact_at-refused :
      (e : Error)
      → admit db request commit_lsn ≡ err e
      → transact_at db request commit_lsn ≡ (db, err e)
  unfolding transact_at
  transact_at-refused e refused = rw refused refl

  -- A transaction commits exactly if its LSN is not 0, the request passes validation, and the
  -- database meets all of its conditions, where the LSN is not the last one.
  pub transact_at_iff :
      suc commit_lsn < U64 → ((transact_at db request commit_lsn).1 ≡ ok commit_lsn) ↔ Admitted
  transact_at_iff fits = (
    λ h. elim (Result-cases (admit db request commit_lsn)) [
      | inl (u, admitted) ↦ admit-Admitted admitted
      | inr (e, refused) ↦
          let bad =
            ap (λ (r : ReferenceDb × Result ℕ). r.1) (sym (transact_at-refused e refused)) ∙ h in
          absurd cc
    ],
    λ admitted. ap (λ (r : ReferenceDb × Result ℕ). r.1) (transact_at-committed fits admitted),
  )

  pub transact_at-cases :
      suc commit_lsn < U64
      → (Admitted × (transact_at db request commit_lsn ≡ (committed, ok commit_lsn)))
        ⊎ ((e : Error) × (transact_at db request commit_lsn ≡ (db, err e))
            × ((e ≡ invalid_request) ⊎ FirstUnmet db request.conditions e))
  transact_at-cases fits = elim (Result-cases (admit db request commit_lsn)) [
    | inl (u, ok_admit) ↦
        let admitted = admit-Admitted ok_admit in
        inl (admitted, transact_at-committed fits admitted)
    | inr (e, refused) ↦ inr (e, transact_at-refused e refused, admit-err e refused)
  ]
