-- ===== src/Testkit/Reference/Pages.antt =====
-- reference.rs: `scan` and `query` page by page.
use dodb.Core.Key.{DocumentKey, cmp}
use dodb.Core.Key.Order.{cmp-IsOrder}
use dodb.Core.Revision.{RevisionState}
use dodb.Map.{Above, Sorted, IsOrder, Ordering-cases}
use dodb.Map.Lookup.{some-injective}
use dodb.Testkit.Reference.{Document, States, ReferenceDb, documents, not_after, scan}
use dodb.Testkit.Reference.Documents.{
  documents-skip, documents-missing, documents-present, documents-IsFound, IsFound,
}
use dodb.Prelude.{
  ℕ, zero, suc, ◌+◌, ◌≡◌, ◌⊎◌, inl, inr, refl, sym, subst, ap, ◌∙◌, Ordering, Bool, true, false,
  List, [], ◌∷◌, ◌++◌, Option, none, some, take, take-add, drop, length, length-append, get_or, All,
  All-map, Bool-cases, arith,
}

-- The last of some documents.
abbrev pub last : List Document → Option Document
last [] = none
last (d ∷ []) = some d
last (d ∷ e ∷ rest) = last (e ∷ rest)

-- The keys of the documents are above a key.
documents-Above :
    (skip : DocumentKey → Bool) (bound : DocumentKey) (states : States)
    → Above cmp bound states
    → All (λ (d : Document). cmp bound d.key ≡ Ordering.lt) (documents skip states)
unfolding documents
documents-Above skip bound [] above = tt
documents-Above skip bound ((key, RevisionState.missing r) ∷ states) above =
    subst (All (λ (d : Document). cmp bound d.key ≡ Ordering.lt))
      (sym (documents-missing skip key r states)) (documents-Above skip bound states above.1)
documents-Above skip bound ((key, RevisionState.present value r) ∷ states) above =
    elim (Bool-cases (skip key)) [
      | inl skipped ↦ rw skipped (documents-Above skip bound states above.1)
      | inr kept ↦ rw kept (above.0, documents-Above skip bound states above.1)
    ]

-- Two tests that agree on the states give the same documents.
documents-agree :
    (skip skip' : DocumentKey → Bool) (states : States)
    → All (λ (e : DocumentKey × RevisionState). skip e.0 ≡ skip' e.0) states
    → documents skip states ≡ documents skip' states
unfolding documents
documents-agree skip skip' [] same = refl
documents-agree skip skip' (entry ∷ states) same =
    rw (same.0, documents-agree skip skip' states same.1) refl

All-middle :
    {A : Type 0} (P : A → Type 0) (before behind : List A) (x : A)
    → All P (before ++ (x ∷ behind))
    → P x
All-middle P [] behind x all = all.0
All-middle P (y ∷ before) behind x all = All-middle P before behind x all.1

-- The test of the next page, and how it relates to the one of the page before.
pub record IsNext (skip skip' : DocumentKey → Bool) (bound : DocumentKey) : Type 0 where
  pub up_to : (k : DocumentKey) → (cmp k bound ≡ Ordering.lt) ⊎ (k ≡ bound) → skip' k ≡ true
  pub behind : (k : DocumentKey) → cmp bound k ≡ Ordering.lt → skip k ≡ skip' k

-- A document of the walk is above the bound of the states.
below_found :
    (skip : DocumentKey → Bool) (states : States) (before behind : List Document) (d : Document)
    (bound : DocumentKey)
    → Above cmp bound states
    → documents skip states ≡ before ++ (d ∷ behind)
    → cmp bound d.key ≡ Ordering.lt
below_found skip states before behind d bound above split =
    All-middle (λ (x : Document). cmp bound x.key ≡ Ordering.lt) before behind d
      (subst (All (λ (x : Document). cmp bound x.key ≡ Ordering.lt)) split
        (documents-Above skip bound states above))

-- The step at a document that the walk keeps.
documents-kept :
    (skip skip' : DocumentKey → Bool) (kept : Document) (states : States)
    (before behind : List Document) (d : Document)
    → Above cmp kept.key states
    → (kept ∷ documents skip states) ≡ before ++ (d ∷ behind)
    → IsNext skip skip' d.key
    → ((before' : List Document)
        → documents skip states ≡ before' ++ (d ∷ behind)
        → documents skip' states ≡ behind)
    → documents skip' ((kept.key, RevisionState.present kept.value kept.revision) ∷ states) ≡ behind
documents-kept skip skip' kept states [] behind d above split next rest =
    let same : kept ≡ d = ap (λ (l : List Document). get_or l 0 kept) split in
    let same_key = ap (λ (x : Document). x.key) same in
    documents-skip skip' kept.key _ states (next.up_to kept.key (inr same_key))
    ∙ sym (
        documents-agree skip skip' states (
          All-map
            (λ (e : DocumentKey × RevisionState) (h : cmp kept.key e.0 ≡ Ordering.lt).
              next.behind e.0 (subst (λ k. cmp k e.0 ≡ Ordering.lt) same_key h))
            states above))
    ∙ ap (drop 1) split
documents-kept skip skip' kept states (p ∷ before) behind d above split next rest =
    let split' : documents skip states ≡ before ++ (d ∷ behind) = ap (drop 1) split in
    documents-skip skip' kept.key _ states
      (next.up_to kept.key (inl (below_found skip states before behind d kept.key above split')))
    ∙ rest before split'

-- The documents behind one of them are those that the next page begins with.
documents-next :
    (skip skip' : DocumentKey → Bool) (states : States) (before behind : List Document)
    (d : Document)
    → Sorted cmp states
    → documents skip states ≡ before ++ (d ∷ behind)
    → IsNext skip skip' d.key
    → documents skip' states ≡ behind
unfolding documents
documents-next skip skip' [] before behind d sorted split next =
    absurd (omega (arith, ap length split, length-append before (d ∷ behind)))
documents-next skip skip' ((key, RevisionState.missing r) ∷ states) before behind d sorted split
      next =
    documents-missing skip' key r states
    ∙ documents-next skip skip' states before behind d sorted.1
        (sym (documents-missing skip key r states) ∙ split) next
documents-next skip skip' ((key, RevisionState.present value r) ∷ states) before behind d sorted
      split next =
    let state = RevisionState.present value r in
    elim (Bool-cases (skip key)) [
      | inl skipped ↦
          let split' = sym (documents-skip skip key state states skipped) ∙ split in
          documents-skip skip' key state states
            (next.up_to key (inl (below_found skip states before behind d key sorted.0 split')))
          ∙ documents-next skip skip' states before behind d sorted.1 split' next
      | inr kept ↦
          let split' = sym (documents-present skip key value r states kept) ∙ split in
          documents-kept skip skip' (record { key = key; value = value; revision = r }) states
            before behind d sorted.0 split' next
            (λ before' later. documents-next skip skip' states before' behind d sorted.1 later next)
    ]

-- The last of the first documents, in its place.
last-take :
    (n : ℕ) (ds : List Document) (d : Document)
    → last (take n ds) ≡ some d
    → (before : List Document) × (ds ≡ before ++ (d ∷ drop n ds))
last-take zero ds d h = cc
last-take (suc n) [] d h = cc
last-take (suc zero) (x ∷ ds) d h = ([], ap (λ y. y ∷ ds) (some-injective h))
last-take (suc (suc n)) (x ∷ []) d h = ([], ap (λ y. y ∷ []) (some-injective h))
last-take (suc (suc n)) (x ∷ y ∷ ds) d h =
    let (before, same) = last-take (suc n) (y ∷ ds) d h in (x ∷ before, ap (λ l. x ∷ l) same)

-- The next page begins behind the last document of this one.
pub pages_join :
    (skip skip' : DocumentKey → Bool) (states : States) (n m : ℕ) (d : Document)
    → Sorted cmp states
    → last (take n (documents skip states)) ≡ some d
    → (IsFound skip states d → IsNext skip skip' d.key)
    → take (n + m) (documents skip states)
      ≡ take n (documents skip states) ++ take m (documents skip' states)
pages_join skip skip' states n m d sorted is_last next =
    let ds = documents skip states in
    let (before, split) = last-take n ds d is_last in
    let found =
      All-middle (IsFound skip states) before (drop n ds) d
        (subst (All (IsFound skip states)) split (documents-IsFound skip states sorted)) in
    take-add n m ds
    ∙ ap (λ l. take n ds ++ take m l)
        (sym (documents-next skip skip' states before (drop n ds) d sorted split (next found)))

module _ {K : Type 0} (cmp : K → K → Ordering) (order : IsOrder cmp) where
  pub not_after-up_to :
      (bound k : K)
      → (cmp k bound ≡ Ordering.lt) ⊎ (k ≡ bound)
      → not_after cmp (some bound) k ≡ true
  not_after-up_to bound k (inl less) = rw less refl
  not_after-up_to bound k (inr same) = rw ((order.eq_iff k bound).1 same) refl

  pub not_after-behind :
      (cursor : Option K) (bound k : K)
      → not_after cmp cursor bound ≡ false
      → cmp bound k ≡ Ordering.lt
      → not_after cmp cursor k ≡ false
  not_after-behind none bound k h less = refl
  not_after-behind (some c) bound k h less = elim (Ordering-cases (cmp bound c)) [
    | inl below ↦ let bad = rw below at h in absurd cc
    | inr (inl same) ↦ let bad = rw same at h in absurd cc
    | inr (inr above) ↦
        rw (order.lt_gt c k (order.trans c bound k (order.gt_lt bound c above) less)) refl
  ]

  pub not_after-self_behind :
      (bound k : K) → cmp bound k ≡ Ordering.lt → not_after cmp (some bound) k ≡ false
  not_after-self_behind bound k less = rw (order.lt_gt bound k less) refl

-- Scanning in pages: on a database whose states are in order, if a page of at most `n` documents
-- ends with a document, then `scan` with room for `n + m` returns that page and behind it the page
-- of at most `m` documents that `scan` returns from the key of that document on.
pub scan-next :
    (db : ReferenceDb) (cursor : Option DocumentKey) (n m : ℕ) (d : Document)
    → Sorted cmp db.states
    → last (scan db cursor n) ≡ some d
    → scan db cursor (n + m) ≡ scan db cursor n ++ scan db (some d.key) m
unfolding scan
scan-next db cursor n m d sorted is_last =
    pages_join (not_after cmp cursor) (not_after cmp (some d.key)) db.states n m d sorted is_last
      (λ found. record {
        up_to = λ k h. not_after-up_to cmp cmp-IsOrder d.key k h;
        behind = λ k less.
            not_after-behind cmp cmp-IsOrder cursor d.key k found.1 less
            ∙ sym (not_after-self_behind cmp cmp-IsOrder d.key k less);
      })
