-- ===== src/Core/Key.antt =====
-- crates/dodb-core/src/key.rs: document keys and their encoding.
pub mod Escape
pub mod RoundTrip
pub mod Canonical
pub mod Order
use dodb.Prelude.{
  ℕ, suc, ◌+◌, List, [], ◌∷◌, ◌++◌, length, drop, Ordering, compare, Result, ok, err, ◌>>=◌, ◌>>◌,
  fail_if, ◌==◌, leb, not, if◌then◌else◌,
}

-- `PrimaryKey(Vec<u8>)` and `SortKey(Vec<u8>)` are their byte vectors.
pub record DocumentKey : Type 0 where
  pub pk : List ℕ
  pub sk : List ℕ

pub data KeyCodecError : Type 0 where
  truncated_escape : ℕ → KeyCodecError
  invalid_escape : ℕ → ℕ → KeyCodecError
  missing_component : ℕ → KeyCodecError
  trailing_bytes : ℕ → KeyCodecError

unfoldable pub encode_component : List ℕ → List ℕ → List ℕ
encode_component [] output = output ++ (0 ∷ 0 ∷ [])
encode_component (byte ∷ bytes) output =
    encode_component bytes (if byte == 0 then output ++ (0 ∷ 255 ∷ []) else output ++ (byte ∷ []))

unfoldable pub encode : DocumentKey → List ℕ
encode key = encode_component key.sk (encode_component key.pk [])

unfoldable pub count_zeros : List ℕ → ℕ
count_zeros [] = 0
count_zeros (byte ∷ bytes) = (if byte == 0 then 1 else 0) + count_zeros bytes

unfoldable pub encoded_component_len : List ℕ → ℕ
unfolding count_zeros
encoded_component_len bytes = length bytes + count_zeros bytes + 2

unfoldable pub encoded_len : DocumentKey → ℕ
encoded_len key = encoded_component_len key.pk + encoded_component_len key.sk

-- The loop of `decode_component`; the first argument is `encoded[offset..]`.
unfoldable pub decode_loop : List ℕ → List ℕ → ℕ → Result KeyCodecError (List ℕ × ℕ)
decode_loop [] bytes offset = err (truncated_escape offset)
decode_loop (byte ∷ []) bytes offset =
    if not (byte == 0) then err (truncated_escape (offset + 1)) else err (truncated_escape offset)
decode_loop (byte ∷ escape ∷ rest) bytes offset =
    let pushed = decode_loop (escape ∷ rest) (bytes ++ (byte ∷ [])) (offset + 1) in
    let escaped = decode_loop rest (bytes ++ (0 ∷ [])) (offset + 2) in
    if not (byte == 0)
    then pushed
    else if escape == 0
    then ok (bytes, offset + 2)
    else if escape == 255
    then escaped
    else err (invalid_escape offset escape)

unfoldable pub decode_component : List ℕ → ℕ → Result KeyCodecError (List ℕ × ℕ)
unfolding decode_loop
decode_component encoded start =
    if leb (length encoded) start
    then err (missing_component start)
    else decode_loop (drop start encoded) [] start

unfoldable pub decode : List ℕ → Result KeyCodecError DocumentKey
decode encoded = do
  (pk, next) ← decode_component encoded 0
  (sk, end) ← decode_component encoded next
  fail_if (not (end == length encoded)) (trailing_bytes end)
  ok (record { pk = pk; sk = sk })

-- `derive(Ord)` on byte vectors: lexicographic.
unfoldable pub cmp_bytes : List ℕ → List ℕ → Ordering
cmp_bytes [] [] = Ordering.eq
cmp_bytes [] (y ∷ ys) = Ordering.lt
cmp_bytes (x ∷ xs) [] = Ordering.gt
cmp_bytes (x ∷ xs) (y ∷ ys) =
    let rest = cmp_bytes xs ys in elim (compare x y) [ Ordering.eq ↦ rest | other ↦ other ]

abbrev pub then_with : Ordering → Ordering → Ordering
then_with Ordering.eq other = other
then_with first other = first

-- `derive(Ord)` on `DocumentKey`: `pk` first, then `sk`.
unfoldable pub cmp : DocumentKey → DocumentKey → Ordering
cmp a b = then_with (cmp_bytes a.pk b.pk) (cmp_bytes a.sk b.sk)
