-- ===== src/Core/Key/RoundTrip.antt =====
-- key.rs: `encode`, `decode` and `encoded_len` together.
use dodb.Core.Key.{
  DocumentKey, encode, encoded_component_len, encoded_len, decode_component, decode,
}
use dodb.Core.Key.Escape.{escaped, decode_loop-escaped, encode-escaped}
use native.Mathlib.Nat.{zero-add}
use dodb.Prelude.{
  ℕ, ◌+◌, ◌≤◌, ◌≡◌, refl, List, [], ◌∷◌, ◌++◌, length, ok, append-nil, arith, length-append,
  drop-length_append,
}

length-escaped : (bytes : List ℕ) → length (escaped bytes) ≡ encoded_component_len bytes
unfolding escaped encoded_component_len
length-escaped [] = refl
length-escaped (byte ∷ bytes) = ground (arith, length-escaped bytes)

-- The length that is computed without encoding a key is the length of its encoding.
pub encoded_len-encode : (key : DocumentKey) → encoded_len key ≡ length (encode key)
unfolding encoded_len
encoded_len-encode key = rw (encode-escaped key) (
    omega (
      arith,
      length-append (escaped key.pk) (escaped key.sk),
      length-escaped key.pk,
      length-escaped key.sk,
    ))

two-le-length-escaped : (bytes : List ℕ) → 2 ≤ length (escaped bytes)
unfolding encoded_component_len
two-le-length-escaped bytes = omega (arith, length-escaped bytes)

-- A component is decoded at the offset at which it stands, whatever stands around it.
decode_component-escaped :
    (before bytes after : List ℕ)
    → decode_component (before ++ (escaped bytes ++ after)) (length before)
      ≡ ok (bytes, length before + length (escaped bytes))
unfolding decode_component
decode_component-escaped before bytes after =
    rw (drop-length_append before (escaped bytes ++ after)) (
      ground (
        arith,
        length-append before (escaped bytes ++ after),
        length-append (escaped bytes) after,
        two-le-length-escaped bytes,
        decode_loop-escaped bytes after [] (length before),
      ))

-- Every document key, of arbitrary bytes, decodes from its encoding.
pub decode-encode : (key : DocumentKey) → decode (encode key) ≡ ok key
unfolding decode
decode-encode key =
    let pk_end = length (escaped key.pk) in
    let wire = escaped key.pk ++ escaped key.sk in
    let pk_read : decode_component wire 0 ≡ ok (key.pk, pk_end) =
      rw (zero-add pk_end) at (decode_component-escaped [] key.pk (escaped key.sk)) in
    let sk_read : decode_component wire pk_end ≡ ok (key.sk, pk_end + length (escaped key.sk)) =
      rw (append-nil (escaped key.sk)) at (decode_component-escaped (escaped key.pk) key.sk []) in
    rw (encode-escaped key, pk_read, sk_read)
      (ground (arith, length-append (escaped key.pk) (escaped key.sk)))
