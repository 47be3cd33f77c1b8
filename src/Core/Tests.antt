-- ===== src/Core/Tests.antt =====
-- The theorems of the core at concrete inputs.
use dodb.Core.Key.{DocumentKey, encode, encoded_len, decode, decode_component, cmp_bytes, cmp}
use dodb.Core.Key.RoundTrip.{encoded_len-encode, decode-encode}
use dodb.Core.Key.Canonical.{encode-decode}
use dodb.Core.Key.Order.{cmp_bytes-encode}
use dodb.Core.Transaction.{
  TransactionRequest, TransactionCondition, TransactionMutation, condition_key, mutation_key,
}
use dodb.Core.Validate.{is_empty, validate}
use dodb.Core.Validate.Laws.{Distinct, validate_iff}
use dodb.Prelude.{◌↔◌, ◌&&◌, false, map, ◌≡◌, refl, List, ℕ, [], ◌∷◌, ok, length}

-- A key whose parts hold the escaped byte.
abbrev user : DocumentKey
user = record { pk = b'u' ∷ 0 ∷ 7 ∷ []; sk = 0 ∷ [] }

-- Its partition key is a prefix of the one before.
abbrev shorter : DocumentKey
shorter = record { pk = b'u' ∷ []; sk = 255 ∷ 255 ∷ [] }

abbrev user_bytes : List ℕ
user_bytes = b'u' ∷ 0 ∷ 255 ∷ 7 ∷ 0 ∷ 0 ∷ 0 ∷ 255 ∷ 0 ∷ 0 ∷ []

user_decodes : decode user_bytes ≡ ok user
unfolding decode decode_component
user_decodes = refl

encoded_len-encode_example : encoded_len user ≡ length (encode user)
encoded_len-encode_example = encoded_len-encode user

decode-encode_example : decode (encode user) ≡ ok user
decode-encode_example = decode-encode user

encode-decode_example : encode user ≡ user_bytes
encode-decode_example = encode-decode user_bytes user user_decodes

cmp_bytes-encode_example : cmp_bytes (encode shorter) (encode user) ≡ cmp shorter user
cmp_bytes-encode_example = cmp_bytes-encode shorter user

-- A condition and a mutation of the same key, and a mutation of another one.
abbrev request : TransactionRequest
request = record {
  conditions = TransactionCondition.exists user ∷ [];
  mutations = TransactionMutation.put user (1 ∷ []) ∷ TransactionMutation.delete shorter ∷ [];
}

validate_iff_example : (validate request ≡ ok tt) ↔ (
    ((is_empty request.conditions && is_empty request.mutations) ≡ false)
    × Distinct (map mutation_key request.mutations)
    × Distinct (map condition_key request.conditions))
validate_iff_example = validate_iff request
