-- ===== src/Map.antt =====
-- `BTreeMap`, which the crates use for ordered maps: the list of its entries in the order of the
-- keys. The order is a parameter, with the laws of `Ord` as an interface.
pub mod Order
pub mod Lookup
pub mod Removal
use dodb.Prelude.{Ordering, ◌≡◌, ◌↔◌, ◌⊎◌, inl, inr, refl, List, [], ◌∷◌, Option, none, some, All}

-- `Ord`
pub record IsOrder {K : Type 0} (cmp : K → K → Ordering) : Type 0 where
  pub eq_iff : (a b : K) → (cmp a b ≡ Ordering.eq) ↔ (a ≡ b)
  pub lt_gt : (a b : K) → cmp a b ≡ Ordering.lt → cmp b a ≡ Ordering.gt
  pub gt_lt : (a b : K) → cmp a b ≡ Ordering.gt → cmp b a ≡ Ordering.lt
  pub trans : (a b c : K) → cmp a b ≡ Ordering.lt → cmp b c ≡ Ordering.lt → cmp a c ≡ Ordering.lt

-- The `match` on a comparison.
abbrev pub by_order {ℓ} : {A : Type ℓ} → Ordering → A → A → A → A
by_order Ordering.lt less same greater = less
by_order Ordering.eq less same greater = same
by_order Ordering.gt less same greater = greater

module _ {K V : Type 0} (cmp : K → K → Ordering) where
  -- `BTreeMap::get`
  abbrev pub find : K → List (K × V) → Option V
  find key [] = none
  find key ((k, v) ∷ rest) = by_order (cmp key k) none (some v) (find key rest)

  -- `BTreeMap::insert`
  abbrev pub insert : K → V → List (K × V) → List (K × V)
  insert key value [] = (key, value) ∷ []
  insert key value ((k, v) ∷ rest) =
      by_order (cmp key k) ((key, value) ∷ (k, v) ∷ rest) ((key, value) ∷ rest)
        ((k, v) ∷ insert key value rest)

  -- `BTreeMap::remove`
  abbrev pub remove : K → List (K × V) → List (K × V)
  remove key [] = []
  remove key ((k, v) ∷ rest) =
      by_order (cmp key k) ((k, v) ∷ rest) (rest) ((k, v) ∷ remove key rest)

  -- Every key of the entries is above a key.
  abbrev pub Above : K → List (K × V) → Type 0
  Above key entries = All (λ (e : K × V). cmp key e.0 ≡ Ordering.lt) entries

  abbrev pub Sorted : List (K × V) → Type 0
  Sorted [] = Unit
  Sorted (e ∷ rest) = Above e.0 rest × Sorted rest

pub Ordering-cases : (o : Ordering) → (o ≡ Ordering.lt) ⊎ ((o ≡ Ordering.eq) ⊎ (o ≡ Ordering.gt))
Ordering-cases Ordering.lt = inl refl
Ordering-cases Ordering.eq = inr (inl refl)
Ordering-cases Ordering.gt = inr (inr refl)
