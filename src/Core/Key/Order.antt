-- ===== src/Core/Key/Order.antt =====
-- key.rs: the order of keys and the order of their encodings.
use dodb.Core.Key.{DocumentKey, encode, cmp_bytes, then_with, cmp}
use dodb.Core.Key.Escape.{escaped, encode-escaped}
use dodb.Map.{IsOrder}
use dodb.Prelude.{
  ℕ, ◌≡◌, ◌∙◌, ◌↔◌, ◌⊎◌, inl, inr, refl, sym, ap, append-nil, List, [], ◌∷◌, ◌++◌, arith, Ordering,
}

cmp_bytes-escaped :
    (xs ys s t : List ℕ)
    → cmp_bytes (escaped xs ++ s) (escaped ys ++ t) ≡ then_with (cmp_bytes xs ys) (cmp_bytes s t)
unfolding escaped cmp_bytes
cmp_bytes-escaped [] [] s t = refl
cmp_bytes-escaped [] (y ∷ ys) s t = ground arith
cmp_bytes-escaped (x ∷ xs) [] s t = ground arith
cmp_bytes-escaped (x ∷ xs) (y ∷ ys) s t = ground (arith, cmp_bytes-escaped xs ys s t)

then_with-eq : (o : Ordering) → then_with o Ordering.eq ≡ o
then_with-eq Ordering.lt = refl
then_with-eq _ = refl

component-order : (xs ys : List ℕ) → cmp_bytes (escaped xs) (escaped ys) ≡ cmp_bytes xs ys
component-order xs ys =
    rw (append-nil (escaped xs), append-nil (escaped ys)) at (cmp_bytes-escaped xs ys [] [])
    ∙ unfold cmp_bytes in then_with-eq (cmp_bytes xs ys)

-- Comparing two encoded keys byte by byte gives the order of the keys: by partition key, then by
-- sort key.
pub cmp_bytes-encode : (a b : DocumentKey) → cmp_bytes (encode a) (encode b) ≡ cmp a b
unfolding cmp
cmp_bytes-encode a b =
    rw (encode-escaped a, encode-escaped b)
      (cmp_bytes-escaped a.pk b.pk (escaped a.sk) (escaped b.sk)
        ∙ ap (then_with (cmp_bytes a.pk b.pk)) (component-order a.sk b.sk))

cmp_bytes_refl : (xs : List ℕ) → cmp_bytes xs xs ≡ Ordering.eq
unfolding cmp_bytes
cmp_bytes_refl [] = refl
cmp_bytes_refl (x ∷ xs) = ground (arith, cmp_bytes_refl xs)

eq_of_cmp_bytes : (xs ys : List ℕ) → cmp_bytes xs ys ≡ Ordering.eq → xs ≡ ys
unfolding cmp_bytes
eq_of_cmp_bytes [] [] h = refl
eq_of_cmp_bytes [] (y ∷ ys) h = cc
eq_of_cmp_bytes (x ∷ xs) [] h = cc
eq_of_cmp_bytes (x ∷ xs) (y ∷ ys) h = ground (arith, eq_of_cmp_bytes xs ys)

-- The comparison is an equality test.
pub cmp_bytes-eq_iff : (xs ys : List ℕ) → (cmp_bytes xs ys ≡ Ordering.eq) ↔ (xs ≡ ys)
cmp_bytes-eq_iff xs ys = (eq_of_cmp_bytes xs ys, λ e. rw e (cmp_bytes_refl ys))

cmp_bytes-lt_gt : (xs ys : List ℕ) → cmp_bytes xs ys ≡ Ordering.lt → cmp_bytes ys xs ≡ Ordering.gt
unfolding cmp_bytes
cmp_bytes-lt_gt [] [] h = cc
cmp_bytes-lt_gt [] (y ∷ ys) h = refl
cmp_bytes-lt_gt (x ∷ xs) [] h = cc
cmp_bytes-lt_gt (x ∷ xs) (y ∷ ys) h = ground (arith, cmp_bytes-lt_gt xs ys)

cmp_bytes-gt_lt : (xs ys : List ℕ) → cmp_bytes xs ys ≡ Ordering.gt → cmp_bytes ys xs ≡ Ordering.lt
unfolding cmp_bytes
cmp_bytes-gt_lt [] [] h = cc
cmp_bytes-gt_lt [] (y ∷ ys) h = cc
cmp_bytes-gt_lt (x ∷ xs) [] h = refl
cmp_bytes-gt_lt (x ∷ xs) (y ∷ ys) h = ground (arith, cmp_bytes-gt_lt xs ys)

cmp_bytes_trans :
    (xs ys zs : List ℕ)
    → cmp_bytes xs ys ≡ Ordering.lt
    → cmp_bytes ys zs ≡ Ordering.lt
    → cmp_bytes xs zs ≡ Ordering.lt
unfolding cmp_bytes
cmp_bytes_trans [] [] zs h k = cc
cmp_bytes_trans [] (y ∷ ys) [] h k = cc
cmp_bytes_trans [] (y ∷ ys) (z ∷ zs) h k = refl
cmp_bytes_trans (x ∷ xs) [] zs h k = cc
cmp_bytes_trans (x ∷ xs) (y ∷ ys) [] h k = cc
cmp_bytes_trans (x ∷ xs) (y ∷ ys) (z ∷ zs) h k = ground (arith, cmp_bytes_trans xs ys zs)

pub cmp_bytes-IsOrder : IsOrder cmp_bytes
cmp_bytes-IsOrder = record {
  eq_iff = cmp_bytes-eq_iff;
  lt_gt = cmp_bytes-lt_gt;
  gt_lt = cmp_bytes-gt_lt;
  trans = cmp_bytes_trans;
}

then_with-eq_both :
    (o p : Ordering) → then_with o p ≡ Ordering.eq → (o ≡ Ordering.eq) × (p ≡ Ordering.eq)
then_with-eq_both Ordering.eq p h = (refl, h)
then_with-eq_both Ordering.lt p h = cc
then_with-eq_both Ordering.gt p h = cc

pub then_with-lt :
    (o p : Ordering)
    → then_with o p ≡ Ordering.lt
    → (o ≡ Ordering.lt) ⊎ ((o ≡ Ordering.eq) × (p ≡ Ordering.lt))
then_with-lt Ordering.eq p h = inr (refl, h)
then_with-lt Ordering.lt p h = inl refl
then_with-lt Ordering.gt p h = cc

then_with-gt :
    (o p : Ordering)
    → then_with o p ≡ Ordering.gt
    → (o ≡ Ordering.gt) ⊎ ((o ≡ Ordering.eq) × (p ≡ Ordering.gt))
then_with-gt Ordering.eq p h = inr (refl, h)
then_with-gt Ordering.lt p h = cc
then_with-gt Ordering.gt p h = inl refl

cmp_bytes-eq_sym : (xs ys : List ℕ) → cmp_bytes xs ys ≡ Ordering.eq → cmp_bytes ys xs ≡ Ordering.eq
cmp_bytes-eq_sym xs ys h = (cmp_bytes-eq_iff ys xs).1 (sym ((cmp_bytes-eq_iff xs ys).0 h))

cmp-eq_iff : (a b : DocumentKey) → (cmp a b ≡ Ordering.eq) ↔ (a ≡ b)
unfolding cmp
cmp-eq_iff a b = (
  λ h.
      let (pk, sk) = then_with-eq_both (cmp_bytes a.pk b.pk) (cmp_bytes a.sk b.sk) h in
      let pk_eq = (cmp_bytes-eq_iff a.pk b.pk).0 pk in
      let sk_eq = (cmp_bytes-eq_iff a.sk b.sk).0 sk in λ i. record { pk = pk_eq i; sk = sk_eq i },
  λ e. rw (e, cmp_bytes_refl b.pk, cmp_bytes_refl b.sk) refl,
)

cmp-lt_gt : (a b : DocumentKey) → cmp a b ≡ Ordering.lt → cmp b a ≡ Ordering.gt
unfolding cmp
cmp-lt_gt a b h = elim (then_with-lt (cmp_bytes a.pk b.pk) (cmp_bytes a.sk b.sk) h) [
  | inl less ↦ rw (cmp_bytes-lt_gt a.pk b.pk less) refl
  | inr (same, less) ↦ rw (cmp_bytes-eq_sym a.pk b.pk same, cmp_bytes-lt_gt a.sk b.sk less) refl
]

cmp-gt_lt : (a b : DocumentKey) → cmp a b ≡ Ordering.gt → cmp b a ≡ Ordering.lt
unfolding cmp
cmp-gt_lt a b h = elim (then_with-gt (cmp_bytes a.pk b.pk) (cmp_bytes a.sk b.sk) h) [
  | inl greater ↦ rw (cmp_bytes-gt_lt a.pk b.pk greater) refl
  | inr (same, greater) ↦
      rw (cmp_bytes-eq_sym a.pk b.pk same, cmp_bytes-gt_lt a.sk b.sk greater) refl
]

cmp_trans :
    (a b c : DocumentKey) → cmp a b ≡ Ordering.lt → cmp b c ≡ Ordering.lt → cmp a c ≡ Ordering.lt
unfolding cmp
cmp_trans a b c h k = elim (then_with-lt (cmp_bytes a.pk b.pk) (cmp_bytes a.sk b.sk) h) [
  | inl ab ↦ elim (then_with-lt (cmp_bytes b.pk c.pk) (cmp_bytes b.sk c.sk) k) [
    | inl bc ↦ rw (cmp_bytes_trans a.pk b.pk c.pk ab bc) refl
    | inr (same, bc) ↦ rw (sym ((cmp_bytes-eq_iff b.pk c.pk).0 same), ab) refl
  ]
  | inr (same, ab) ↦ elim (then_with-lt (cmp_bytes b.pk c.pk) (cmp_bytes b.sk c.sk) k) [
    | inl bc ↦ rw ((cmp_bytes-eq_iff a.pk b.pk).0 same, bc) refl
    | inr (same', bc) ↦
        rw
          (
            (cmp_bytes-eq_iff a.pk c.pk).1
                ((cmp_bytes-eq_iff a.pk b.pk).0 same ∙ (cmp_bytes-eq_iff b.pk c.pk).0 same'),
            cmp_bytes_trans a.sk b.sk c.sk ab bc,
          )
          refl
  ]
]

-- Document keys are in a strict total order.
pub cmp-IsOrder : IsOrder cmp
cmp-IsOrder = record {
  eq_iff = cmp-eq_iff;
  lt_gt = cmp-lt_gt;
  gt_lt = cmp-gt_lt;
  trans = cmp_trans;
}
