-- ===== src/Map/Lookup.antt =====
-- Ordered maps: what a lookup finds after an insertion.
use dodb.Map.{IsOrder, by_order, find, insert, Above, Sorted, Ordering-cases}
use dodb.Prelude.{
  suc, ◌≤◌, Ordering, ◌≡◌, ◌≢◌, ◌⊎◌, inl, inr, refl, sym, subst, ap, List, [], ◌∷◌, Option, none,
  some, length, All, All-map, arith,
}

pub some-injective : {A : Type 0} {a b : A} → some a ≡ some b → a ≡ b
some-injective {A} {a} h = ap (λ o. get o a) h
  where
    get : Option A → A → A
    get (some x) d = x
    get none d = d

pub cmp_refl : {K : Type 0} (cmp : K → K → Ordering) → IsOrder cmp → (a : K) → cmp a a ≡ Ordering.eq
cmp_refl cmp order a = (order.eq_iff a a).1 refl

module _ {K V : Type 0} (cmp : K → K → Ordering) (order : IsOrder cmp) where
  pub find-insert :
      (key : K) (value : V) (m : List (K × V)) → find cmp key (insert cmp key value m) ≡ some value
  find-insert key value [] = rw (cmp_refl cmp order key) refl
  find-insert key value ((k, v) ∷ rest) = elim (Ordering-cases (cmp key k)) [
    | inl less ↦ rw (less, cmp_refl cmp order key) refl
    | inr (inl same) ↦ rw (same, cmp_refl cmp order key) refl
    | inr (inr greater) ↦ rw (greater, greater) (find-insert key value rest)
  ]

  pub find_step :
      (key k : K) (v : V) (m m' : List (K × V))
      → find cmp key m ≡ find cmp key m'
      → find cmp key ((k, v) ∷ m) ≡ find cmp key ((k, v) ∷ m')
  find_step key k v m m' same = ap (by_order (cmp key k) none (some v)) same

  pub find-insert_other :
      (key other : K) (value : V) (m : List (K × V))
      → key ≢ other
      → find cmp other (insert cmp key value m) ≡ find cmp other m
  find-insert_other key other value [] apart = elim (Ordering-cases (cmp other key)) [
    | inl less ↦ rw less refl
    | inr (inl same) ↦ absurd (apart (sym ((order.eq_iff other key).0 same)))
    | inr (inr greater) ↦ rw greater refl
  ]
  find-insert_other key other value ((k, v) ∷ rest) apart = elim (Ordering-cases (cmp key k)) [
    | inl less ↦ elim (Ordering-cases (cmp other key)) [
      | inl below ↦ rw (less, below, order.trans other key k below less) refl
      | inr (inl same) ↦ absurd (apart (sym ((order.eq_iff other key).0 same)))
      | inr (inr greater) ↦ rw (less, greater) refl
    ]
    | inr (inl same) ↦ rw same (elim (Ordering-cases (cmp other key)) [
      | inl below ↦ rw (ap (cmp other) (sym ((order.eq_iff key k).0 same)), below) refl
      | inr (inl equal) ↦ absurd (apart (sym ((order.eq_iff other key).0 equal)))
      | inr (inr greater) ↦ rw (ap (cmp other) (sym ((order.eq_iff key k).0 same)), greater) refl
    ])
    | inr (inr greater) ↦ rw greater (
        find_step other k v (insert cmp key value rest) rest
          (find-insert_other key other value rest apart))
  ]

  Above-insert :
      (bound key : K) (value : V) (m : List (K × V))
      → cmp bound key ≡ Ordering.lt
      → Above cmp bound m
      → Above cmp bound (insert cmp key value m)
  Above-insert bound key value [] low above = (low, tt)
  Above-insert bound key value ((k, v) ∷ rest) low above = elim (Ordering-cases (cmp key k)) [
    | inl less ↦ rw less (low, above)
    | inr (inl same) ↦ rw same (low, above.1)
    | inr (inr greater) ↦ rw greater (above.0, Above-insert bound key value rest low above.1)
  ]

  pub insert-Sorted :
      (key : K) (value : V) (m : List (K × V)) → Sorted cmp m → Sorted cmp (insert cmp key value m)
  insert-Sorted key value [] sorted = (tt, tt)
  insert-Sorted key value ((k, v) ∷ rest) sorted = elim (Ordering-cases (cmp key k)) [
    | inl less ↦ rw less (
      (
        less,
        All-map (λ (e : K × V) (h : cmp k e.0 ≡ Ordering.lt). order.trans key k e.0 less h) rest
            sorted.0,
      ),
      sorted,
    )
    | inr (inl same) ↦ rw same (rw ((order.eq_iff key k).0 same) sorted.0, sorted.1)
    | inr (inr greater) ↦ rw greater (
      Above-insert k key value rest (order.gt_lt key k greater) sorted.0,
      insert-Sorted key value rest sorted.1,
    )
  ]

  pub find-Above-none : (key : K) (m : List (K × V)) → Above cmp key m → find cmp key m ≡ none
  find-Above-none key [] above = refl
  find-Above-none key ((k, v) ∷ rest) above = rw (above.0) refl

  -- An insertion adds one entry, or none where the key is there.
  pub length-insert :
      (key : K) (value : V) (m : List (K × V)) → length (insert cmp key value m) ≤ suc (length m)
  length-insert key value [] = omega arith
  length-insert key value ((k, v) ∷ rest) = elim (Ordering-cases (cmp key k)) [
    | inl less ↦ rw less (omega arith)
    | inr (inl same) ↦ rw same (omega arith)
    | inr (inr greater) ↦ rw greater (omega (arith, length-insert key value rest))
  ]

  -- A key found in entries above a bound is above it.
  pub find-Above :
      (bound key : K) (value : V) (m : List (K × V))
      → Above cmp bound m
      → find cmp key m ≡ some value
      → cmp bound key ≡ Ordering.lt
  find-Above bound key value [] above found = cc
  find-Above bound key value ((k, v) ∷ rest) above found = elim (Ordering-cases (cmp key k)) [
    | inl less ↦
        let none_some : none ≡ some value =
          subst (λ o. by_order o none (some v) (find cmp key rest) ≡ some value) less found in
        absurd cc
    | inr (inl same) ↦ rw ((order.eq_iff key k).0 same) (above.0)
    | inr (inr greater) ↦
        find-Above bound key value rest above.1
          (subst (λ o. by_order o none (some v) (find cmp key rest) ≡ some value) greater found)
  ]

  pub find_there :
      (key k : K) (value v : V) (m : List (K × V))
      → Sorted cmp ((k, v) ∷ m)
      → find cmp key m ≡ some value
      → find cmp key ((k, v) ∷ m) ≡ some value
  find_there key k value v m sorted found =
      rw (order.lt_gt k key (find-Above k key value m sorted.0 found)) found

  -- What is found in a map is its head or in the rest.
  pub find_split :
      (key k : K) (value v : V) (m : List (K × V))
      → find cmp key ((k, v) ∷ m) ≡ some value
      → ((key ≡ k) × (v ≡ value)) ⊎ (find cmp key m ≡ some value)
  find_split key k value v m found = elim (Ordering-cases (cmp key k)) [
    | inl less ↦
        let none_some : none ≡ some value =
          subst (λ o. by_order o none (some v) (find cmp key m) ≡ some value) less found in
        absurd cc
    | inr (inl same) ↦ inl (
      (order.eq_iff key k).0 same,
      some-injective
          (subst (λ o. by_order o none (some v) (find cmp key m) ≡ some value) same found),
    )
    | inr (inr greater) ↦
        inr (subst (λ o. by_order o none (some v) (find cmp key m) ≡ some value) greater found)
  ]

  -- An insertion at a key that is there adds no entry.
  pub length-insert_found :
      (key : K) (old value : V) (m : List (K × V))
      → find cmp key m ≡ some old
      → length (insert cmp key value m) ≡ length m
  length-insert_found key old value [] found = cc
  length-insert_found key old value ((k, v) ∷ rest) found = elim (Ordering-cases (cmp key k)) [
    | inl less ↦
        let none_some : none ≡ some old =
          subst (λ o. by_order o none (some v) (find cmp key rest) ≡ some old) less found in
        absurd cc
    | inr (inl same) ↦ rw same refl
    | inr (inr greater) ↦ rw greater (
        ap suc (
          length-insert_found key old value rest
            (subst (λ o. by_order o none (some v) (find cmp key rest) ≡ some old) greater found)))
  ]

  pub All-insert {κ} :
      (P : K × V → Type κ) (key : K) (value : V) (m : List (K × V))
      → P (key, value)
      → All P m
      → All P (insert cmp key value m)
  All-insert P key value [] p all = (p, tt)
  All-insert P key value ((k, v) ∷ rest) p all = elim (Ordering-cases (cmp key k)) [
    | inl less ↦ rw less (p, all)
    | inr (inl same) ↦ rw same (p, all.1)
    | inr (inr greater) ↦ rw greater (all.0, All-insert P key value rest p all.1)
  ]

  -- What holds of every entry holds of one that is found.
  pub find-All {κ} :
      (P : K × V → Type κ) (key : K) (value : V) (m : List (K × V))
      → All P m
      → find cmp key m ≡ some value
      → P (key, value)
  find-All P key value [] all found = cc
  find-All P key value ((k, v) ∷ rest) all found = elim (find_split key k value v rest found) [
    | inl (same_key, same) ↦
        subst (λ x. P (x, value)) (sym same_key) (subst (λ x. P (k, x)) same all.0)
    | inr later ↦ find-All P key value rest all.1 later
  ]
