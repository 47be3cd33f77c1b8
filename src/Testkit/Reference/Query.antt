-- ===== src/Testkit/Reference/Query.antt =====
-- reference.rs: which documents `query` returns, and how its pages join.
use dodb.Core.Key.{DocumentKey, cmp, cmp_bytes}
use dodb.Core.Key.Order.{cmp_bytes-IsOrder, cmp_bytes-eq_iff, then_with-lt}
use dodb.Core.Revision.{RevisionState}
use dodb.Map.{find, Sorted, Ordering-cases}
use dodb.Testkit.Reference.{
  Document, ReferenceDb, or_missing, get, documents, not_after, differs, query,
}
use dodb.Testkit.Reference.Documents.{documents-IsFound, documents-Has, IsFound, Has}
use dodb.Testkit.Reference.Pages.{
  last, IsNext, pages_join, not_after-up_to, not_after-behind, not_after-self_behind,
}
use dodb.Prelude.{
  ℕ, ◌+◌, ◌<◌, ◌≡◌, inl, inr, refl, sym, subst, ap, ◌∙◌, Ordering, Bool, false, ◌||◌, List, ◌++◌,
  Option, none, some, take, take-length_self, length, length-take, All, All-map, All-take,
  Bool-cases, arith,
}

differs-false : (a b : List ℕ) → differs a b ≡ false → a ≡ b
differs-false a b h = elim (Ordering-cases (cmp_bytes a b)) [
  | inl less ↦ let bad = rw less at h in absurd cc
  | inr (inl same) ↦ (cmp_bytes-eq_iff a b).0 same
  | inr (inr greater) ↦ let bad = rw greater at h in absurd cc
]

-- On one primary key, keys are in the order of their sort keys.
cmp-same_pk :
    (a b : DocumentKey) → a.pk ≡ b.pk → cmp a b ≡ Ordering.lt → cmp_bytes a.sk b.sk ≡ Ordering.lt
unfolding cmp
cmp-same_pk a b same less = elim (then_with-lt (cmp_bytes a.pk b.pk) (cmp_bytes a.sk b.sk) less) [
  | inl pk_less ↦ let bad = sym pk_less ∙ (cmp_bytes-eq_iff a.pk b.pk).1 same in absurd cc
  | inr (pk_same, sk_less) ↦ sk_less
]

module _ (pk : List ℕ) where
  abbrev outside : Option (List ℕ) → DocumentKey → Bool
  outside cursor key = differs key.pk pk || not_after cmp_bytes cursor key.sk

  outside-false :
      (cursor : Option (List ℕ)) (key : DocumentKey)
      → outside cursor key ≡ false
      → (differs key.pk pk ≡ false) × (not_after cmp_bytes cursor key.sk ≡ false)
  outside-false cursor key h = elim (Bool-cases (differs key.pk pk)) [
    | inl other ↦ let bad = rw other at h in absurd cc
    | inr same ↦ (same, rw same at h)
  ]

  outside-IsNext :
      (cursor : Option (List ℕ)) (bound : DocumentKey)
      → outside cursor bound ≡ false
      → IsNext (outside cursor) (outside (some bound.sk)) bound
  outside-IsNext cursor bound h =
      let (in_pk, after) = outside-false cursor bound h in
      let bound_pk = differs-false bound.pk pk in_pk in
      record {
        up_to = λ k before. elim (Bool-cases (differs k.pk pk)) [
          | inl other ↦ rw other refl
          | inr same ↦ rw same (
              not_after-up_to cmp_bytes cmp_bytes-IsOrder bound.sk k.sk (elim before [
                | inl less ↦
                    inl (cmp-same_pk k bound (differs-false k.pk pk same ∙ sym bound_pk) less)
                | inr equal ↦ inr (ap (λ (x : DocumentKey). x.sk) equal)
              ]))
        ];
        behind = λ k less. elim (Bool-cases (differs k.pk pk)) [
          | inl other ↦ rw other refl
          | inr same ↦
              let sk_less =
                cmp-same_pk bound k (bound_pk ∙ sym (differs-false k.pk pk same)) less in
              rw same (
                not_after-behind cmp_bytes cmp_bytes-IsOrder cursor bound.sk k.sk after sk_less
                ∙ sym (not_after-self_behind cmp_bytes cmp_bytes-IsOrder bound.sk k.sk sk_less))
        ];
      }

-- Querying in pages: on a database whose states are in order, if a page of at most `n` documents
-- of a primary key ends with a document, then `query` with room for `n + m` returns that page and
-- behind it the page of at most `m` documents that `query` returns from the sort key of that
-- document on.
pub query-next :
    (db : ReferenceDb) (pk : List ℕ) (cursor : Option (List ℕ)) (n m : ℕ) (d : Document)
    → Sorted cmp db.states
    → last (query db pk cursor n) ≡ some d
    → query db pk cursor (n + m) ≡ query db pk cursor n ++ query db pk (some d.key.sk) m
unfolding query
query-next db pk cursor n m d sorted is_last =
    pages_join (outside pk cursor) (outside pk (some d.key.sk)) db.states n m d sorted is_last
      (λ found. outside-IsNext pk cursor d.key found.1)

or_missing-present :
    (o : Option RevisionState) (value : List ℕ) (r : ℕ)
    → or_missing o ≡ RevisionState.present value r
    → o ≡ some (RevisionState.present value r)
or_missing-present none value r h = cc
or_missing-present (some state) value r h = ap some h

-- What `query` returns is right: on a database whose states are in order, every document it returns
-- is the present state of its key, and the key has the primary key and a sort key behind the
-- cursor.
pub query_sound :
    (db : ReferenceDb) (pk : List ℕ) (cursor : Option (List ℕ)) (limit : ℕ)
    → Sorted cmp db.states
    → All
        (λ (d : Document).
          (get db d.key ≡ RevisionState.present d.value d.revision)
          × (d.key.pk ≡ pk)
          × (not_after cmp_bytes cursor d.key.sk ≡ false))
        (query db pk cursor limit)
unfolding query get
query_sound db pk cursor limit sorted =
    let ds = documents (outside pk cursor) db.states in
    All-map
      (λ (d : Document) (f : IsFound (outside pk cursor) db.states d).
        let (in_pk, after) = outside-false pk cursor d.key f.1 in
        (ap or_missing f.0, differs-false d.key.pk pk in_pk, after))
      (take limit ds)
      (All-take (IsFound (outside pk cursor) db.states) limit ds
        (documents-IsFound (outside pk cursor) db.states sorted))

-- What `query` returns is complete: if it returns fewer documents than it has room for, then every
-- document that is the present state of its key, under the primary key and with a sort key behind
-- the cursor, is among them.
pub query_complete :
    (db : ReferenceDb) (pk : List ℕ) (cursor : Option (List ℕ)) (limit : ℕ) (d : Document)
    → length (query db pk cursor limit) < limit
    → get db d.key ≡ RevisionState.present d.value d.revision
    → d.key.pk ≡ pk
    → not_after cmp_bytes cursor d.key.sk ≡ false
    → Has d (query db pk cursor limit)
unfolding query get
query_complete db pk cursor limit d short present same_pk after =
    let ds = documents (outside pk cursor) db.states in
    let equal : differs d.key.pk pk ≡ false = rw ((cmp_bytes-eq_iff d.key.pk pk).1 same_pk) refl in
    subst (Has d) (sym (take-length_self limit ds (omega (arith, length-take limit ds)))) (
      documents-Has (outside pk cursor) db.states d
        (or_missing-present (find cmp d.key db.states) d.value d.revision present, rw equal after))
