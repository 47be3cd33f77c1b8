-- ===== src/Core/Revision.antt =====
-- crates/dodb-core/src/revision.rs: the committed state of one document key.
-- The newtypes of identifiers.rs (`Lsn`, `Revision`, `PageId`, `TxnId`, …) are their `u64`.
use dodb.Prelude.{ℕ, List, Option, none, some, Bool, true, false}

pub data RevisionState : Type 0 where
  present : List ℕ → ℕ → RevisionState
  missing : ℕ → RevisionState

pub data ObservedState : Type 0 where
  present : ℕ → ObservedState
  missing : ℕ → ObservedState

unfoldable pub revision : RevisionState → ℕ
revision (RevisionState.present value r) = r
revision (RevisionState.missing r) = r

unfoldable pub value : RevisionState → Option (List ℕ)
value (RevisionState.present v r) = some v
value (RevisionState.missing r) = none

unfoldable pub is_missing : RevisionState → Bool
is_missing (RevisionState.present v r) = false
is_missing (RevisionState.missing r) = true

unfoldable pub observed : RevisionState → ObservedState
observed (RevisionState.present v r) = ObservedState.present r
observed (RevisionState.missing r) = ObservedState.missing r
