-- ===== src/Map/Removal.antt =====
-- Ordered maps: what a removal leaves.
use dodb.Map.{IsOrder, by_order, find, remove, Above, Sorted, Ordering-cases}
use dodb.Map.Lookup.{find_step, find-Above-none}
use dodb.Prelude.{
  suc, Ordering, ◌≡◌, ◌≢◌, inl, inr, refl, sym, subst, ap, ◌∙◌, List, [], ◌∷◌, none, some, length,
  All-map,
}

module _ {K V : Type 0} (cmp : K → K → Ordering) (order : IsOrder cmp) where
  pub find-remove :
      (key : K) (m : List (K × V)) → Sorted cmp m → find cmp key (remove cmp key m) ≡ none
  find-remove key [] sorted = refl
  find-remove key ((k, v) ∷ rest) sorted = elim (Ordering-cases (cmp key k)) [
    | inl less ↦ rw (less, less) refl
    | inr (inl same) ↦
        rw (same, (order.eq_iff key k).0 same) (find-Above-none cmp order k rest sorted.0)
    | inr (inr greater) ↦ rw (greater, greater) (find-remove key rest sorted.1)
  ]

  pub find-remove_other :
      (key other : K) (m : List (K × V))
      → Sorted cmp m
      → key ≢ other
      → find cmp other (remove cmp key m) ≡ find cmp other m
  find-remove_other key other [] sorted apart = refl
  find-remove_other key other ((k, v) ∷ rest) sorted apart = elim (Ordering-cases (cmp key k)) [
    | inl less ↦ rw less refl
    | inr (inl same) ↦
        rw same (remove_head other k v rest sorted.0 (λ e. apart ((order.eq_iff key k).0 same ∙ e)))
    | inr (inr greater) ↦ rw greater (
        find_step cmp order other k v (remove cmp key rest) rest
          (find-remove_other key other rest sorted.1 apart))
  ]
    where
      remove_head :
          (other k : K) (v : V) (rest : List (K × V))
          → Above cmp k rest
          → k ≢ other
          → find cmp other rest ≡ find cmp other ((k, v) ∷ rest)
      remove_head other k v rest above apart = elim (Ordering-cases (cmp other k)) [
        | inl below ↦ rw below (
            find-Above-none cmp order other rest (
              All-map (λ (e : K × V) (h : cmp k e.0 ≡ Ordering.lt). order.trans other k e.0 below h)
                rest above))
        | inr (inl equal) ↦ absurd (apart (sym ((order.eq_iff other k).0 equal)))
        | inr (inr greater) ↦ rw greater refl
      ]

  Above-remove :
      (bound key : K) (m : List (K × V)) → Above cmp bound m → Above cmp bound (remove cmp key m)
  Above-remove bound key [] above = tt
  Above-remove bound key ((k, v) ∷ rest) above = elim (Ordering-cases (cmp key k)) [
    | inl less ↦ rw less above
    | inr (inl same) ↦ rw same (above.1)
    | inr (inr greater) ↦ rw greater (above.0, Above-remove bound key rest above.1)
  ]

  pub remove-Sorted : (key : K) (m : List (K × V)) → Sorted cmp m → Sorted cmp (remove cmp key m)
  remove-Sorted key [] sorted = tt
  remove-Sorted key ((k, v) ∷ rest) sorted = elim (Ordering-cases (cmp key k)) [
    | inl less ↦ rw less sorted
    | inr (inl same) ↦ rw same (sorted.1)
    | inr (inr greater) ↦
        rw greater (Above-remove k key rest sorted.0, remove-Sorted key rest sorted.1)
  ]

  -- A removal takes one entry out where the key is there.
  pub length-remove :
      (key : K) (value : V) (m : List (K × V))
      → find cmp key m ≡ some value
      → suc (length (remove cmp key m)) ≡ length m
  length-remove key value [] found = cc
  length-remove key value ((k, v) ∷ rest) found = elim (Ordering-cases (cmp key k)) [
    | inl less ↦
        let none_some : none ≡ some value =
          subst (λ o. by_order o none (some v) (find cmp key rest) ≡ some value) less found in
        absurd cc
    | inr (inl same) ↦ rw same refl
    | inr (inr greater) ↦ rw greater (
        ap suc (
          length-remove key value rest
            (subst (λ o. by_order o none (some v) (find cmp key rest) ≡ some value) greater found)))
  ]
