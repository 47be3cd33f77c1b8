-- ===== src/Storage/Btree/ChainPages/RoundTrip.antt =====
-- format.rs: the codecs of overflow pages and free pages.
use dodb.Bytes.{length-zeros, slice, copy_at, zeros, le_bytes, from_le, all_zero, from_le-le_bytes}
use dodb.Storage.Btree.Entries.{
  PageData, max_value_size, encode_page_id, decode_page_id, check_body_size, read_word,
  check_version,
}
use dodb.Storage.Btree.Entries.Laws.{
  IsPageRef, encode_page_id_bound, decode_page_id-encode_page_id, read_word-le_bytes,
  check_version_current,
}
use dodb.Storage.Btree.ChainPages.{
  overflow_magic, free_magic, overflow_body, encode_overflow, decode_overflow, encode_free,
  decode_free,
}
use dodb.Prelude.{
  ℕ, ◌+◌, ◌<◌, ◌≤◌, ◌≡◌, refl, ap, subst, ◌∙◌, List, ◌++◌, Option, ok, length, drop, arith, true,
  length-append, length-drop, take-length_append,
}

stored_page_id :
    (p : Option ℕ) → IsPageRef p → decode_page_id (from_le (le_bytes 8 (encode_page_id p))) ≡ p
stored_page_id p h =
    ap decode_page_id (from_le-le_bytes 8 (encode_page_id p) (encode_page_id_bound p h))
    ∙ decode_page_id-encode_page_id p h

free_body : Option ℕ → List ℕ
free_body next =
    copy_at 8 8 (le_bytes 8 (encode_page_id next))
      (copy_at 4 2 (le_bytes 2 1) (copy_at 0 4 free_magic (zeros 4064)))

decode-free_body :
    (lsn : ℕ) (next : Option ℕ)
    → decode_free lsn (free_body next)
      ≡ ok (PageData.free lsn (decode_page_id (from_le (le_bytes 8 (encode_page_id next)))))
unfolding decode_free free_body check_body_size check_version read_word slice copy_at zeros le_bytes
    from_le
decode-free_body lsn next = refl

-- A free page body that encode_free returns, its next page not the null mark, decodes to the same
-- next page.
pub decode_free-encode_free :
    (lsn : ℕ) (next : Option ℕ) (body : List ℕ)
    → IsPageRef next
    → encode_free next ≡ ok body
    → decode_free lsn body ≡ ok (PageData.free lsn next)
unfolding encode_free free_body
decode_free-encode_free lsn next body h e =
    subst (λ b. decode_free lsn b ≡ ok (PageData.free lsn next))
      (let same : free_body next ≡ body = ground arith in same)
      (decode-free_body lsn next ∙ ap (λ p. ok (PageData.free lsn p)) (stored_page_id next h))

-- The body of an overflow page, by evaluation of the writes.
module _ (total_length : ℕ) (next : Option ℕ) (chunk : List ℕ) where
  pad : List ℕ
  pad = drop (length chunk) (zeros 4032)

  record Layout (body : List ℕ) : Type 0 where
    magic : slice 0 4 body ≡ overflow_magic
    version : slice 4 2 body ≡ le_bytes 2 1
    reserved : all_zero (slice 6 2 body) ≡ true
    reserved_end : all_zero (slice 26 6 body) ≡ true
    next_field : slice 8 8 body ≡ le_bytes 8 (encode_page_id next)
    total_field : slice 16 8 body ≡ le_bytes 8 total_length
    length_field : slice 24 2 body ≡ le_bytes 2 (length chunk)
    content : slice 32 (length chunk) body ≡ chunk
    bytes_count : length body ≡ 32 + length (chunk ++ pad)

  layout : Layout (overflow_body next total_length chunk)
  unfolding overflow_body slice copy_at zeros le_bytes pad
  layout = record {
    magic = refl;
    version = refl;
    reserved = refl;
    reserved_end = refl;
    next_field = refl;
    total_field = refl;
    length_field = refl;
    content = take-length_append chunk pad;
    bytes_count = omega arith;
  }

  length-chunk_pad : length chunk ≤ 4032 → length (chunk ++ pad) ≡ 4032
  unfolding pad
  length-chunk_pad fits =
      omega
        (arith, length-append chunk pad, length-drop (length chunk) (zeros 4032), length-zeros 4032)

  decode-Layout :
      (lsn : ℕ) (body : List ℕ)
      → Layout body
      → IsPageRef next
      → (0 < total_length) × (total_length ≤ max_value_size)
      → (0 < length chunk) × (length chunk ≤ 4032)
      → decode_overflow lsn body ≡ ok (PageData.overflow lsn next total_length chunk)
  unfolding decode_overflow check_body_size
  decode-Layout lsn body l ref total size =
      let whole : length body ≡ 4064 = omega (arith, l.bytes_count, length-chunk_pad size.1) in
      rw
        (
          whole,
          l.magic,
          l.version,
          check_version_current,
          l.reserved,
          l.reserved_end,
          read_word-le_bytes 8 body 8 (encode_page_id next) (omega arith) l.next_field
              (encode_page_id_bound next ref),
          read_word-le_bytes 8 body 16 total_length (omega arith) l.total_field (omega arith),
          read_word-le_bytes 2 body 24 (length chunk) (omega arith) l.length_field (omega arith),
          l.content,
          decode_page_id-encode_page_id next ref,
        )
        (ground arith)

-- An overflow page body that encode_overflow returns, its next page not the null mark, decodes to
-- the same next page, total length and chunk.
pub decode_overflow-encode_overflow :
    (lsn : ℕ) (next : Option ℕ) (total_length : ℕ) (chunk body : List ℕ)
    → IsPageRef next
    → encode_overflow next total_length chunk ≡ ok body
    → decode_overflow lsn body ≡ ok (PageData.overflow lsn next total_length chunk)
unfolding encode_overflow
decode_overflow-encode_overflow lsn next total_length chunk body ref e =
    subst (λ b. decode_overflow lsn b ≡ ok (PageData.overflow lsn next total_length chunk))
      (let same : overflow_body next total_length chunk ≡ body = ground arith in same)
      (decode-Layout total_length next chunk lsn (overflow_body next total_length chunk)
        (layout total_length next chunk) ref (ground arith, ground arith)
        (ground arith, ground arith))
