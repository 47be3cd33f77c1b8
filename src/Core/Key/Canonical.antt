-- ===== src/Core/Key/Canonical.antt =====
-- key.rs: the bytes that `decode` accepts.
use dodb.Core.Key.{
  DocumentKey, KeyCodecError, trailing_bytes, encode, decode_loop, decode_component, decode,
}
use dodb.Core.Key.Escape.{escaped, encode-escaped}
use dodb.Prelude.{
  ℕ, ◌+◌, ◌≡◌, refl, sym, ap, ap₂, ◌∙◌, inl, inr, List, [], ◌∷◌, ◌++◌, length, drop, Result, ok,
  append_assoc, append-nil, arith, ◌==◌, Bool-cases, false, leb, not, nil_of_length, fail_if, ◌>>◌,
  length-append, drop-length_append, ==_iff, >>=-eq-ok,
}

-- What a successful read has consumed: an escaped component, ahead of the rest.
record Consumed (source bytes found : List ℕ) (offset next : ℕ) : Type 0 where
  component : List ℕ
  rest : List ℕ
  source_eq : source ≡ escaped component ++ rest
  found_eq : found ≡ bytes ++ component
  next_eq : next ≡ offset + length (escaped component)

Consumed-push :
    {source bytes found : List ℕ} {offset next : ℕ} (byte : ℕ)
    → (byte == 0) ≡ false
    → Consumed source (bytes ++ (byte ∷ [])) found (offset + 1) next
    → Consumed (byte ∷ source) bytes found offset next
unfolding escaped
Consumed-push {bytes = bytes} byte other c = record {
  component = byte ∷ c.component;
  rest = c.rest;
  source_eq = rw other (ap (λ l. byte ∷ l) c.source_eq);
  found_eq = c.found_eq ∙ append_assoc bytes (byte ∷ []) c.component;
  next_eq = rw other (omega (arith, c.next_eq));
}

Consumed-zero :
    {source bytes found : List ℕ} {offset next : ℕ}
    → Consumed source (bytes ++ (0 ∷ [])) found (offset + 2) next
    → Consumed (0 ∷ 255 ∷ source) bytes found offset next
unfolding escaped
Consumed-zero {bytes = bytes} c = record {
  component = 0 ∷ c.component;
  rest = c.rest;
  source_eq = ap (λ l. 0 ∷ 255 ∷ l) c.source_eq;
  found_eq = c.found_eq ∙ append_assoc bytes (0 ∷ []) c.component;
  next_eq = omega (arith, c.next_eq);
}

Consumed-end :
    {bytes found : List ℕ} {offset next : ℕ} (rest : List ℕ)
    → ◌≡◌ {A = Result KeyCodecError (List ℕ × ℕ)} (ok (bytes, offset + 2)) (ok (found, next))
    → Consumed (0 ∷ 0 ∷ rest) bytes found offset next
unfolding escaped
Consumed-end {bytes = bytes} rest h = record {
  component = [];
  rest = rest;
  source_eq = refl;
  found_eq = ground (arith, append-nil bytes);
  next_eq = ground arith;
}

-- The three branches behind a zero byte.
decode_escape-Consumed :
    (escape : ℕ) (rest bytes : List ℕ) (offset : ℕ) {found : List ℕ} {next : ℕ}
    → (decode_loop rest (bytes ++ (0 ∷ [])) (offset + 2) ≡ ok (found, next)
        → Consumed rest (bytes ++ (0 ∷ [])) found (offset + 2) next)
    → decode_loop (0 ∷ escape ∷ rest) bytes offset ≡ ok (found, next)
    → Consumed (0 ∷ escape ∷ rest) bytes found offset next
unfolding decode_loop
decode_escape-Consumed escape rest bytes offset {found} {next} ih h =
    elim (Bool-cases (escape == 0)) [
      | inl e ↦ rw ((==_iff escape 0).0 e) (Consumed-end rest (rw ((==_iff escape 0).0 e) at h))
      | inr e ↦ elim (Bool-cases (escape == 255)) [
        | inl f ↦
            rw ((==_iff escape 255).0 f) (Consumed-zero (ih (rw ((==_iff escape 255).0 f) at h)))
        | inr f ↦ cc (rw (e, f) at h)
      ]
    ]

decode_loop-Consumed :
    (source bytes : List ℕ) (offset : ℕ) {found : List ℕ} {next : ℕ}
    → decode_loop source bytes offset ≡ ok (found, next)
    → Consumed source bytes found offset next
unfolding decode_loop
decode_loop-Consumed [] bytes offset h = cc
decode_loop-Consumed (byte ∷ []) bytes offset h = elim (Bool-cases (byte == 0)) [
  | inl e ↦ cc (rw e at h)
  | inr e ↦ cc (rw e at h)
]
decode_loop-Consumed (byte ∷ escape ∷ rest) bytes offset h = elim (Bool-cases (byte == 0)) [
  | inl e ↦ rw ((==_iff byte 0).0 e) (
      decode_escape-Consumed escape rest bytes offset
        (decode_loop-Consumed rest (bytes ++ (0 ∷ [])) (offset + 2))
        (rw ((==_iff byte 0).0 e) at h))
  | inr e ↦
      Consumed-push byte e
        (decode_loop-Consumed (escape ∷ rest) (bytes ++ (byte ∷ [])) (offset + 1) (rw e at h))
]

decode_component-Consumed :
    (encoded : List ℕ) (start : ℕ) {found : List ℕ} {next : ℕ}
    → decode_component encoded start ≡ ok (found, next)
    → Consumed (drop start encoded) [] found start next
unfolding decode_component
decode_component-Consumed encoded start h = elim (Bool-cases (leb (length encoded) start)) [
  | inl e ↦ cc (rw e at h)
  | inr e ↦ decode_loop-Consumed (drop start encoded) [] start (rw e at h)
]

-- Two components that fill the source are the encoding of the key that they hold.
two_components :
    (encoded pk sk : List ℕ) {next : ℕ}
    → Consumed encoded [] pk 0 next
    → Consumed (drop next encoded) [] sk next (length encoded)
    → escaped pk ++ escaped sk ≡ encoded
two_components encoded pk sk {next} first second =
    let start : next ≡ length (escaped first.component) = omega (arith, first.next_eq) in
    let behind : first.rest ≡ escaped second.component ++ second.rest =
      sym (drop-length_append (escaped first.component) first.rest)
      ∙ rw (first.source_eq, start) at second.source_eq in
    let lengths : length encoded
        ≡ length (escaped first.component)
          + (length (escaped second.component) + length second.rest) =
      ap length (first.source_eq ∙ ap (λ l. escaped first.component ++ l) behind)
      ∙ length-append (escaped first.component) (escaped second.component ++ second.rest)
      ∙ ap (λ n. length (escaped first.component) + n)
          (length-append (escaped second.component) second.rest) in
    let empty : second.rest ≡ [] =
      nil_of_length second.rest (omega (arith, start, lengths, second.next_eq)) in
    rw (first.found_eq, second.found_eq)
      (sym (
        first.source_eq
        ∙ ap (λ l. escaped first.component ++ l)
            (behind ∙ rw (empty, append-nil (escaped second.component)))))

decode_end :
    {pk sk : List ℕ} {end n : ℕ} {key : DocumentKey}
    → (fail_if (not (end == n)) (trailing_bytes end) >> ok (record { pk = pk; sk = sk })) ≡ ok key
    → (end ≡ n) × (pk ≡ key.pk) × (sk ≡ key.sk)
decode_end h = ground arith

-- The encoding is canonical: bytes that decode to a key are the bytes that encoding the key gives.
pub encode-decode :
    (encoded : List ℕ) (key : DocumentKey) → decode encoded ≡ ok key → encode key ≡ encoded
unfolding decode
encode-decode encoded key h =
    let ((pk, next), pk_read, rest) = >>=-eq-ok (decode_component encoded 0) _ h in
    let ((sk, end), sk_read, last) = >>=-eq-ok (decode_component encoded next) _ rest in
    let (end_eq, pk_eq, sk_eq) = decode_end {key = key} last in
    encode-escaped key
    ∙ ap₂ (λ a b. escaped a ++ escaped b) (sym pk_eq) (sym sk_eq)
    ∙ two_components encoded pk sk (decode_component-Consumed encoded 0 pk_read)
        (rw end_eq at (decode_component-Consumed encoded next sk_read))
