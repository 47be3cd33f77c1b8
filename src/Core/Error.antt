-- ===== src/Core/Error.antt =====
-- crates/dodb-core/src/error.rs: the recoverable errors, without their message texts.
use dodb.Core.Transaction.{TransactionConflict}
use dodb.Prelude

pub data Error : Type 0 where
  invalid_input invalid_request overloaded response_too_large : Error
  conflict : TransactionConflict → Error
  corruption io unsupported_format durability_failure recovery_failure : Error
  checkpoint_failure internal_invariant_violation : Error

-- `dodb_core::Result`.
abbrev pub Result {ℓ} : Type ℓ → Type ℓ
Result A = Prelude.Result Error A
