-- ===== src/Core/Transaction.antt =====
-- crates/dodb-core/src/transaction.rs: conditions, mutations and requests.
use dodb.Core.Key.{DocumentKey}
use dodb.Core.Revision.{ObservedState}
use dodb.Prelude.{ℕ, List, Option}

pub data WriteIntent : Type 0 where
  put : List ℕ → WriteIntent
  delete : WriteIntent

pub data TransactionCondition : Type 0 where
  revision_equals : DocumentKey → ℕ → TransactionCondition
  exists : DocumentKey → TransactionCondition
  not_exists : DocumentKey → TransactionCondition

unfoldable pub condition_key : TransactionCondition → DocumentKey
condition_key (TransactionCondition.revision_equals key r) = key
condition_key (TransactionCondition.exists key) = key
condition_key (TransactionCondition.not_exists key) = key

pub data ConditionExpectation : Type 0 where
  revision_equals : ℕ → ConditionExpectation
  exists : ConditionExpectation
  not_exists : ConditionExpectation

unfoldable pub expectation : TransactionCondition → ConditionExpectation
expectation (TransactionCondition.revision_equals key r) = ConditionExpectation.revision_equals r
expectation (TransactionCondition.exists key) = ConditionExpectation.exists
expectation (TransactionCondition.not_exists key) = ConditionExpectation.not_exists

pub data TransactionMutation : Type 0 where
  put : DocumentKey → List ℕ → TransactionMutation
  delete : DocumentKey → TransactionMutation

unfoldable pub mutation_key : TransactionMutation → DocumentKey
mutation_key (TransactionMutation.put key v) = key
mutation_key (TransactionMutation.delete key) = key

pub record TransactionRequest : Type 0 where
  pub conditions : List TransactionCondition
  pub mutations : List TransactionMutation

pub record TransactionResult : Type 0 where
  pub commit_lsn : Option ℕ

pub record TransactionConflict : Type 0 where
  pub key : DocumentKey
  pub expected : ConditionExpectation
  pub actual : ObservedState
