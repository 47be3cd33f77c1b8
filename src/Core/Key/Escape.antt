-- ===== src/Core/Key/Escape.antt =====
-- key.rs: what one encoded component looks like, as a plain recursion.
use dodb.Core.Key.{DocumentKey, encode, KeyCodecError, encode_component, decode_loop}
use dodb.Prelude.{
  ℕ, ◌+◌, ◌≡◌, refl, ap, ◌∙◌, inl, inr, List, [], ◌∷◌, ◌++◌, length, Result, ok, append_assoc,
  append-nil, arith, ◌==◌, if◌then◌else◌, Bool-cases, ==_iff, false,
}

-- The escaped bytes with their terminator.
unfoldable pub escaped : List ℕ → List ℕ
escaped [] = 0 ∷ 0 ∷ []
escaped (byte ∷ bytes) =
    let rest = escaped bytes in if byte == 0 then 0 ∷ 255 ∷ rest else byte ∷ rest

pub encode_component-escaped :
    (bytes output : List ℕ) → encode_component bytes output ≡ output ++ escaped bytes
unfolding encode_component escaped
encode_component-escaped [] output = refl
encode_component-escaped (byte ∷ bytes) output = elim (Bool-cases (byte == 0)) [
  | inl zero_byte ↦ rw zero_byte (
      encode_component-escaped bytes (output ++ (0 ∷ 255 ∷ []))
      ∙ append_assoc output (0 ∷ 255 ∷ []) (escaped bytes))
  | inr other ↦ rw other (
      encode_component-escaped bytes (output ++ (byte ∷ []))
      ∙ append_assoc output (byte ∷ []) (escaped bytes))
]

-- One round of the decoder on a byte that is no escape.
pub decode_loop_push :
    (byte : ℕ) (rest bytes : List ℕ) (offset : ℕ)
    → (byte == 0) ≡ false
    → decode_loop (byte ∷ rest) bytes offset ≡ decode_loop rest (bytes ++ (byte ∷ [])) (offset + 1)
unfolding decode_loop
decode_loop_push byte [] bytes offset h = rw h
decode_loop_push byte (next ∷ rest) bytes offset h = rw h

decode_loop_zero :
    (rest bytes : List ℕ) (offset : ℕ)
    → decode_loop (0 ∷ 255 ∷ rest) bytes offset ≡ decode_loop rest (bytes ++ (0 ∷ [])) (offset + 2)
unfolding decode_loop
decode_loop_zero rest bytes offset = refl

found :
    {bytes bytes' : List ℕ} {next next' : ℕ}
    → bytes ≡ bytes'
    → next ≡ next'
    → ◌≡◌ {A = Result KeyCodecError (List ℕ × ℕ)} (ok (bytes, next)) (ok (bytes', next'))
found p q = λ i. ok (p i, q i)

-- The decoder reads an encoded component and stops behind its terminator.
pub decode_loop-escaped :
    (bs rest bytes : List ℕ) (offset : ℕ)
    → decode_loop (escaped bs ++ rest) bytes offset ≡ ok (bytes ++ bs, offset + length (escaped bs))
unfolding escaped
decode_loop-escaped [] rest bytes offset = unfold decode_loop in rw append-nil
decode_loop-escaped (b ∷ bs) rest bytes offset = elim (Bool-cases (b == 0)) [
  | inl zero_byte ↦ rw ((==_iff b 0).0 zero_byte) (
      decode_loop_zero (escaped bs ++ rest) bytes offset
      ∙ decode_loop-escaped bs rest (bytes ++ (0 ∷ [])) (offset + 2)
      ∙ found (append_assoc bytes (0 ∷ []) bs) (omega arith))
  | inr other ↦ rw other (
      decode_loop_push b (escaped bs ++ rest) bytes offset other
      ∙ decode_loop-escaped bs rest (bytes ++ (b ∷ [])) (offset + 1)
      ∙ found (append_assoc bytes (b ∷ []) bs) (omega arith))
]

pub encode-escaped : (key : DocumentKey) → encode key ≡ escaped key.pk ++ escaped key.sk
unfolding encode
encode-escaped key =
    encode_component-escaped key.sk (encode_component key.pk [])
    ∙ ap (λ output. output ++ escaped key.sk) (encode_component-escaped key.pk [])
