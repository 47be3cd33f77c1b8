-- ===== src/Testkit/Reference/Documents.antt =====
-- reference.rs: the documents that a walk over the states collects.
use dodb.Core.Key.{DocumentKey, cmp}
use dodb.Core.Key.Order.{cmp-IsOrder}
use dodb.Core.Revision.{RevisionState, revision}
use dodb.Map.{find, Sorted}
use dodb.Map.Lookup.{cmp_refl, find_there, find_split}
use dodb.Testkit.Reference.{Document, States, documents}
use dodb.Prelude.{
  ℕ, ◌≡◌, inl, inr, refl, sym, subst, Bool, true, false, List, [], ◌∷◌, some, All, All-map,
  Bool-cases, if_either,
}

-- The list has the document.
pub data Has (d : Document) : List Document → Type 0 where
  here : (rest : List Document) → Has d (d ∷ rest)
  there : (other : Document) (rest : List Document) → Has d rest → Has d (other ∷ rest)

-- The document is one of the states, and its key is not skipped.
abbrev pub IsFound : (DocumentKey → Bool) → States → Document → Type 0
IsFound skip states d =
    (find cmp d.key states ≡ some (RevisionState.present d.value d.revision)) × (skip d.key ≡ false)

value_of : RevisionState → List ℕ → List ℕ
value_of (RevisionState.present value r) default = value
value_of (RevisionState.missing r) default = default

module _ (skip : DocumentKey → Bool) where
  -- The walk over one more state.
  pub documents-skip :
      (key : DocumentKey) (state : RevisionState) (states : States)
      → skip key ≡ true
      → documents skip ((key, state) ∷ states) ≡ documents skip states
  unfolding documents
  documents-skip key state states skipped = rw skipped refl

  pub documents-missing :
      (key : DocumentKey) (r : _) (states : States)
      → documents skip ((key, RevisionState.missing r) ∷ states) ≡ documents skip states
  unfolding documents
  documents-missing key r states = elim (Bool-cases (skip key)) [
    | inl skipped ↦ rw skipped refl
    | inr kept ↦ rw kept refl
  ]

  pub documents-present :
      (key : DocumentKey) (value : List _) (r : _) (states : States)
      → skip key ≡ false
      → documents skip ((key, RevisionState.present value r) ∷ states)
        ≡ (record { key = key; value = value; revision = r }) ∷ documents skip states
  unfolding documents
  documents-present key value r states kept = rw kept refl

  -- A walk over more states finds the documents too.
  IsFound-later :
      (entry : DocumentKey × RevisionState) (states : States) (ds : List Document)
      → Sorted cmp (entry ∷ states)
      → All (IsFound skip states) ds
      → All (IsFound skip (entry ∷ states)) ds
  IsFound-later entry states ds sorted all =
      All-map
        (λ (d : Document) (f : IsFound skip states d). (
          find_there cmp cmp-IsOrder d.key entry.0 (RevisionState.present d.value d.revision)
              entry.1 states sorted f.0,
          f.1,
        ))
        ds all

  -- Every document of the walk is one of the states.
  pub documents-IsFound :
      (states : States) → Sorted cmp states → All (IsFound skip states) (documents skip states)
  unfolding documents
  documents-IsFound [] sorted = tt
  documents-IsFound ((key, RevisionState.missing r) ∷ states) sorted =
      let entry : DocumentKey × RevisionState = (key, RevisionState.missing r) in
      if_either (All (IsFound skip (entry ∷ states))) (skip key) _ _
        (λ skipped.
          IsFound-later entry states (documents skip states) sorted
            (documents-IsFound states sorted.1))
        (λ kept.
          IsFound-later entry states (documents skip states) sorted
            (documents-IsFound states sorted.1))
  documents-IsFound ((key, RevisionState.present value r) ∷ states) sorted =
      let entry : DocumentKey × RevisionState = (key, RevisionState.present value r) in
      let rest =
        IsFound-later entry states (documents skip states) sorted
          (documents-IsFound states sorted.1) in
      if_either (All (IsFound skip (entry ∷ states))) (skip key) _ _ (λ skipped. rest)
        (λ kept. ((rw (cmp_refl cmp cmp-IsOrder key) refl, kept), rest))

  -- The walk finds every state with a value whose key is not skipped.
  pub documents-Has :
      (states : States) (d : Document) → IsFound skip states d → Has d (documents skip states)
  unfolding documents revision value_of
  documents-Has [] d (found, kept) = cc
  documents-Has ((key, RevisionState.missing r) ∷ states) d (found, kept) =
      elim (find_split cmp cmp-IsOrder d.key key (RevisionState.present d.value d.revision)
        (RevisionState.missing r) states found) [
          | inl (same_key, same) ↦ absurd cc
          | inr later ↦
              subst (Has d) (sym (documents-missing key r states))
                (documents-Has states d (later, kept))
        ]
  documents-Has ((key, RevisionState.present value r) ∷ states) d (found, kept) =
      elim (find_split cmp cmp-IsOrder d.key key (RevisionState.present d.value d.revision)
        (RevisionState.present value r) states found) [
          | inl (same_key, same) ↦
              let head : Document = record { key = key; value = value; revision = r } in
              let key_eq = sym same_key in
              let same_doc : head ≡ d = λ i. record {
                key = key_eq i;
                value = value_of (same i) value;
                revision = revision (same i);
              } in
              subst (Has d)
                (sym (
                  documents-present key value r states (subst (λ k. skip k ≡ false) same_key kept)))
                (subst (λ x. Has x (head ∷ documents skip states)) same_doc
                  (Has.here (documents skip states)))
          | inr later ↦
              if_either (Has d) (skip key) _ _ (λ skipped. documents-Has states d (later, kept))
                (λ kept_too.
                  Has.there _ (documents skip states) (documents-Has states d (later, kept)))
        ]
