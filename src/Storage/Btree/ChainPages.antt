-- ===== src/Storage/Btree/ChainPages.antt =====
-- crates/dodb-storage/src/btree/format.rs: overflow pages and free pages.
pub mod RoundTrip
use dodb.Core.Error.{Error, Result, invalid_input, corruption}
use dodb.Bytes.{slice, copy_at, zeros, le_bytes, eq_bytes, all_zero, U16}
use dodb.Storage.Btree.Entries.{
  PageData, body_size, layout_version, max_value_size, encode_page_id, decode_page_id,
  check_body_size, read_word, check_version,
}
use dodb.Prelude.{
  ℕ, ◌+◌, ◌-◌, Bool, true, false, not, ◌||◌, List, [], ◌∷◌, Option, ok, err, ◌>>=◌, ◌>>◌, fail_if,
  ◌==◌, leb, ltb, length, drop,
}

-- `*b"OVFL"` and `*b"FREE"`
abbrev pub overflow_magic : List ℕ
overflow_magic = b'O' ∷ b'V' ∷ b'F' ∷ b'L' ∷ []

abbrev pub free_magic : List ℕ
free_magic = b'F' ∷ b'R' ∷ b'E' ∷ b'E' ∷ []

abbrev pub overflow_data_offset : ℕ
overflow_data_offset = 32

abbrev pub overflow_data_size : ℕ
overflow_data_size = 4032

unfoldable pub overflow_body : Option ℕ → ℕ → List ℕ → List ℕ
overflow_body next total_length chunk =
    let b0 = copy_at 0 4 overflow_magic (zeros body_size) in
    let b1 = copy_at 4 2 (le_bytes 2 layout_version) b0 in
    let b2 = copy_at 8 8 (le_bytes 8 (encode_page_id next)) b1 in
    let b3 = copy_at 16 8 (le_bytes 8 total_length) b2 in
    let b4 = copy_at 24 2 (le_bytes 2 (length chunk)) b3 in
    copy_at overflow_data_offset (length chunk) chunk b4

unfoldable pub encode_overflow : Option ℕ → ℕ → List ℕ → Result (List ℕ)
encode_overflow next total_length chunk = do
  fail_if (total_length == 0 || ltb max_value_size total_length) invalid_input
  fail_if
      (ltb overflow_data_size (length chunk) || (ltb (U16 - 1) (length chunk) || length chunk == 0))
      invalid_input
  ok (overflow_body next total_length chunk)

unfoldable pub decode_overflow : ℕ → List ℕ → Result PageData
decode_overflow lsn body = do
  check_body_size body
  fail_if (not (eq_bytes (slice 0 4 body) overflow_magic)) corruption
  check_version (slice 4 2 body)
  fail_if (not (all_zero (slice 6 2 body)) || not (all_zero (slice 26 6 body))) corruption
  next ← read_word 8 body 8
  total_length ← read_word 8 body 16
  chunk_length ← read_word 2 body 24
  fail_if (total_length == 0 || (ltb max_value_size total_length || chunk_length == 0)) corruption
  fail_if (ltb (length body) (overflow_data_offset + chunk_length)) corruption
  ok (
      PageData.overflow lsn (decode_page_id next) total_length
        (slice overflow_data_offset chunk_length body))

unfoldable pub encode_free : Option ℕ → Result (List ℕ)
encode_free next = do
  let b0 = copy_at 0 4 free_magic (zeros body_size)
  let b1 = copy_at 4 2 (le_bytes 2 layout_version) b0
  ok (copy_at 8 8 (le_bytes 8 (encode_page_id next)) b1)

unfoldable pub decode_free : ℕ → List ℕ → Result PageData
decode_free lsn body = do
  check_body_size body
  fail_if (not (eq_bytes (slice 0 4 body) free_magic)) corruption
  check_version (slice 4 2 body)
  fail_if (not (all_zero (slice 6 2 body)) || not (all_zero (drop 16 body))) corruption
  next ← read_word 8 body 8
  ok (PageData.free lsn (decode_page_id next))
