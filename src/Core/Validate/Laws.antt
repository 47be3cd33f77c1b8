-- ===== src/Core/Validate/Laws.antt =====
-- transaction.rs: which requests pass the validation.
use dodb.Core.Key.{DocumentKey, cmp, cmp_bytes, then_with}
use dodb.Core.Key.Order.{cmp_bytes-eq_iff}
use dodb.Core.Transaction.{TransactionRequest, condition_key, mutation_key}
use dodb.Core.Error.{Error, invalid_request}
use dodb.Core.Validate.{same_key, contains_key, insert_all, is_empty, validate}
use dodb.Prelude.{
  ◌≡◌, ◌≢◌, ◌↔◌, refl, sym, ap, ◌∙◌, Bool, true, false, List, [], ◌∷◌, map, ok, err, err-injective,
  Result-cases, Ordering, All, All-map, All-both, arith, >>=-eq-ok, fail_if, ◌&&◌, inl, inr,
  Bool-cases,
}

-- The key is none of these keys.
abbrev pub NotIn : DocumentKey → List DocumentKey → Type 0
NotIn key keys = All (λ k. key ≢ k) keys

-- No two of these keys are the same.
abbrev pub Distinct : List DocumentKey → Type 0
Distinct [] = Unit
Distinct (key ∷ keys) = NotIn key keys × Distinct keys

both_eq :
    (o p : Ordering)
    → elim (then_with o p) as (λ x. Bool) [ Ordering.eq ↦ true | _ ↦ false ] ≡ true
    → (o ≡ Ordering.eq) × (p ≡ Ordering.eq)
both_eq Ordering.eq Ordering.eq h = (refl, refl)
both_eq Ordering.eq Ordering.lt h = cc
both_eq Ordering.eq Ordering.gt h = cc
both_eq Ordering.lt p h = cc
both_eq Ordering.gt p h = cc

eq_both :
    (o p : Ordering)
    → o ≡ Ordering.eq
    → p ≡ Ordering.eq
    → elim (then_with o p) as (λ x. Bool) [ Ordering.eq ↦ true | _ ↦ false ] ≡ true
eq_both o p h k = rw (h, k) refl

eq_of_same_key : (a b : DocumentKey) → same_key a b ≡ true → a ≡ b
unfolding cmp
eq_of_same_key a b h =
    let (pk, sk) = both_eq (cmp_bytes a.pk b.pk) (cmp_bytes a.sk b.sk) h in
    let pk_eq = (cmp_bytes-eq_iff a.pk b.pk).0 pk in
    let sk_eq = (cmp_bytes-eq_iff a.sk b.sk).0 sk in λ i. record { pk = pk_eq i; sk = sk_eq i }

same_key_refl : (a : DocumentKey) → same_key a a ≡ true
unfolding cmp
same_key_refl a =
    eq_both (cmp_bytes a.pk a.pk) (cmp_bytes a.sk a.sk) ((cmp_bytes-eq_iff a.pk a.pk).1 refl)
      ((cmp_bytes-eq_iff a.sk a.sk).1 refl)

NotIn-contains_key :
    (key : DocumentKey) (keys : List DocumentKey) → contains_key key keys ≡ false → NotIn key keys
NotIn-contains_key key [] h = tt
NotIn-contains_key key (k ∷ keys) h = (
  λ e.
      let same : same_key key k ≡ true = ap (same_key key) (sym e) ∙ same_key_refl key in
      ground arith,
  NotIn-contains_key key keys (ground arith),
)

contains_key-NotIn :
    (key : DocumentKey) (keys : List DocumentKey) → NotIn key keys → contains_key key keys ≡ false
contains_key-NotIn key [] h = refl
contains_key-NotIn key (k ∷ keys) h = elim (Bool-cases (same_key key k)) [
  | inl same ↦ absurd (h.0 (eq_of_same_key key k same))
  | inr other ↦ rw other (contains_key-NotIn key keys h.1)
]

insert_all-ok :
    (seen keys : List DocumentKey)
    → insert_all seen keys ≡ ok tt
    → All (λ k. NotIn k seen) keys × Distinct keys
unfolding insert_all
insert_all-ok seen [] h = (tt, tt)
insert_all-ok seen (key ∷ keys) h = elim (Bool-cases (contains_key key seen)) [
  | inl dup ↦ absurd (ground arith)
  | inr fresh ↦
      let rest : insert_all (key ∷ seen) keys ≡ ok tt = ground arith in
      let (apart, distinct) = insert_all-ok (key ∷ seen) keys rest in
      (
        (NotIn-contains_key key seen fresh, All-map (λ k n. n.1) keys apart),
        (All-map (λ k n e. n.0 (sym e)) keys apart, distinct),
      )
]

ok-insert_all :
    (seen keys : List DocumentKey)
    → All (λ k. NotIn k seen) keys
    → Distinct keys
    → insert_all seen keys ≡ ok tt
unfolding insert_all
ok-insert_all seen [] h d = refl
ok-insert_all seen (key ∷ keys) h d = rw (contains_key-NotIn key seen h.0) (
    ok-insert_all (key ∷ seen) keys (All-both _ _ keys (All-map (λ k n e. n (sym e)) keys d.0) h.1)
      d.1)

All-NotIn_nil : (keys : List DocumentKey) → All (λ k. NotIn k []) keys
All-NotIn_nil [] = tt
All-NotIn_nil (key ∷ keys) = (tt, All-NotIn_nil keys)

-- A request passes validation exactly if it has a condition or a mutation, no two mutations are of
-- one key, and no two conditions are of one key.
pub validate_iff :
    (request : TransactionRequest)
    → (validate request ≡ ok tt) ↔ (
        ((is_empty request.conditions && is_empty request.mutations) ≡ false)
        × Distinct (map mutation_key request.mutations)
        × Distinct (map condition_key request.conditions))
unfolding validate
validate_iff request =
    let mutated = map mutation_key request.mutations in
    let conditioned = map condition_key request.conditions in
    (
      λ h.
          let (done, some_part, rest) =
            >>=-eq-ok
              (fail_if (is_empty request.conditions && is_empty request.mutations) invalid_request)
              _ h in
          let (tt, first, second) = >>=-eq-ok (insert_all [] mutated) _ rest in
          (
            ground arith,
            (insert_all-ok [] mutated first).1,
            (insert_all-ok [] conditioned second).1,
          ),
      λ h.
          let (some_part, first, second) = h in
          rw
            (
              some_part,
              ok-insert_all [] mutated (All-NotIn_nil mutated) first,
              ok-insert_all [] conditioned (All-NotIn_nil conditioned) second,
            )
            refl,
    )

insert_all-err :
    (seen keys : List DocumentKey) (e : Error) → insert_all seen keys ≡ err e → e ≡ invalid_request
unfolding insert_all
insert_all-err seen [] e h = cc
insert_all-err seen (key ∷ keys) e h = elim (Bool-cases (contains_key key seen)) [
  | inl dup ↦ sym (err-injective (rw dup at h))
  | inr fresh ↦ insert_all-err (key ∷ seen) keys e (rw fresh at h)
]

-- Validation has one error.
pub validate-err :
    (request : TransactionRequest) (e : Error) → validate request ≡ err e → e ≡ invalid_request
unfolding validate
validate-err request e h =
    let mutated = map mutation_key request.mutations in
    let conditioned = map condition_key request.conditions in
    elim (Bool-cases (is_empty request.conditions && is_empty request.mutations)) [
      | inl empty ↦ sym (err-injective (rw empty at h))
      | inr some_part ↦ elim (Result-cases (insert_all [] mutated)) [
        | inl (u, first) ↦ insert_all-err [] conditioned e (rw (some_part, first) at h)
        | inr (e', first) ↦
            sym (err-injective (rw (some_part, first) at h)) ∙ insert_all-err [] mutated e' first
      ]
    ]
