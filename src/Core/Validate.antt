-- ===== src/Core/Validate.antt =====
-- crates/dodb-core/src/transaction.rs: `TransactionRequest::validate`.
pub mod Laws
use dodb.Core.Key.{DocumentKey, cmp}
use dodb.Core.Transaction.{TransactionRequest, condition_key, mutation_key}
use dodb.Core.Error.{Result, invalid_request}
use dodb.Prelude.{
  Bool, true, false, List, [], ◌∷◌, map, ok, err, ◌>>◌, ◌&&◌, ◌||◌, fail_if, Ordering,
  if◌then◌else◌,
}

abbrev pub same_key : DocumentKey → DocumentKey → Bool
same_key a b = elim (cmp a b) [ Ordering.eq ↦ true | _ ↦ false ]

abbrev pub contains_key : DocumentKey → List DocumentKey → Bool
contains_key key [] = false
contains_key key (k ∷ keys) = same_key key k || contains_key key keys

-- The loop that inserts each key into a `BTreeSet` and stops at one that is there already.
unfoldable pub insert_all : List DocumentKey → List DocumentKey → Result (Unit {0})
insert_all seen [] = ok tt
insert_all seen (key ∷ keys) =
    let rest = insert_all (key ∷ seen) keys in
    if contains_key key seen then err invalid_request else rest

abbrev pub is_empty {ℓ} : {A : Type ℓ} → List A → Bool
is_empty [] = true
is_empty (x ∷ xs) = false

unfoldable pub validate : TransactionRequest → Result (Unit {0})
unfolding insert_all
validate request = do
  fail_if (is_empty request.conditions && is_empty request.mutations) invalid_request
  insert_all [] (map mutation_key request.mutations)
  insert_all [] (map condition_key request.conditions)
