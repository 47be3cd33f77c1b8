-- ===== src/Storage/Wal/Log/Started.antt =====
-- wal.rs: `open` after a crash in the middle of the initialization of a log.
use dodb.Bytes.{eq_bytes, eq_bytes_iff}
use dodb.Storage.Wal.Frame.{encode_frame, append_frame}
use dodb.Storage.Wal.Scan.Frames.{frame_bytes, length-frame_bytes}
use dodb.Storage.Wal.Scan.Appended.{encode_frame-frame_bytes, append_frame-frame_bytes}
use dodb.Storage.Wal.Payload.{WalIdentity}
use dodb.Storage.Wal.Payload.RoundTrip.{IsIdentity, length-identity_payload}
use dodb.Storage.Wal.Log.{
  WalLog, init_frame, checked_suc, initialize_empty, is_torn_initialization_prefix, must_restart,
  open_log,
}
use dodb.Prelude.{
  ℕ, ◌<◌, ◌≡◌, refl, sym, subst, ap, ◌∙◌, true, false, ltb, leb, ◌==◌, List, [], ok, length,
  length-take, take, Bool-cases, inl, inr, >>=-eq-ok, ok-injective, arith,
}

module _ (crc32c : List ℕ → ℕ) (identity : WalIdentity) (start : ℕ) (bytes : List ℕ)
    (encoded : encode_frame crc32c (init_frame identity start) ≡ ok bytes)
    (size : length bytes ≡ 104) (n : ℕ) (short : n < 104) where
  length-part : length (take n bytes) ≡ n
  length-part = omega (arith, length-take n bytes)

  part-is_torn : is_torn_initialization_prefix crc32c (take n bytes) identity start ≡ ok true
  unfolding is_torn_initialization_prefix
  part-is_torn =
      let shorter : leb (length bytes) (length (take n bytes)) ≡ false =
        ground (arith, size, length-part) in
      let same : eq_bytes (take n bytes) (take (length (take n bytes)) bytes) ≡ true =
        (eq_bytes_iff (take n bytes) (take (length (take n bytes)) bytes)).1
          (ap (λ k. take k bytes) (sym length-part)) in
      rw (encoded, shorter, same) refl

  part-must_restart : must_restart crc32c (take n bytes) identity start ≡ ok true
  unfolding must_restart
  part-must_restart =
      let small : ltb (length (take n bytes)) 104 ≡ true = ground (arith, length-part) in
      rw small part-is_torn

  open_log-part :
      open_log crc32c (take n bytes) identity start ≡ initialize_empty crc32c identity start
  unfolding open_log
  open_log-part = elim (Bool-cases (length (take n bytes) == 0)) [
    | inl empty ↦ rw empty refl
    | inr some_bytes ↦ rw (some_bytes, part-must_restart) refl
  ]

-- A crash while a log is created: if the fields of the identity are in range and
-- `initialize_empty` succeeds, then `open` of any part of its file shorter than the whole first
-- frame starts again and returns the same log.
pub open_log-initialize_empty :
    (crc32c : List ℕ → ℕ) (identity : WalIdentity) (start n : ℕ) (log : WalLog)
    → IsIdentity identity
    → initialize_empty crc32c identity start ≡ ok log
    → n < 104
    → open_log crc32c (take n log.file) identity start ≡ ok log
unfolding initialize_empty append_frame
open_log-initialize_empty crc32c identity start n log valid h short =
    let frame = init_frame identity start in
    let (next_lsn, next_ok, h1) = >>=-eq-ok (checked_suc start) _ h in
    let (out, written, last) = >>=-eq-ok (append_frame crc32c [] frame) _ h1 in
    let (bytes, encoded, rest) = >>=-eq-ok (encode_frame crc32c frame) _ written in
    let same : frame_bytes crc32c frame ≡ bytes =
      encode_frame-frame_bytes crc32c frame bytes encoded in
    let file_eq : bytes ≡ log.file =
      sym same
      ∙ append_frame-frame_bytes crc32c [] frame out written
      ∙ ap (λ (l : WalLog). l.file) (ok-injective last) in
    let size : length bytes ≡ 104 = omega (
      arith,
      ap length same,
      length-frame_bytes crc32c frame [],
      length-identity_payload identity start valid,
    ) in
    subst (λ f. open_log crc32c (take n f) identity start ≡ ok log) file_eq
      (open_log-part crc32c identity start bytes encoded size n short ∙ h)
