-- ===== src/Storage/Btree/Entries/Laws.antt =====
-- format.rs: the readers on words that are in range, and page ids.
use dodb.Bytes.{slice, le_bytes, from_le, U64, from_le-le_bytes}
use dodb.Storage.Btree.Entries.{encode_page_id, decode_page_id, read_word, check_version}
use dodb.Prelude.{
  ℕ, ◌+◌, ◌-◌, ◌^◌, ◌<◌, ◌≤◌, ◌≡◌, refl, ap, ◌∙◌, List, Option, none, some, ok, length, le→leb,
  arith,
}

-- A page id that is not the null mark.
abbrev pub IsPageRef : Option ℕ → Type 0
IsPageRef none = Unit
IsPageRef (some page_id) = page_id < U64 - 1

pub encode_page_id_bound : (p : Option ℕ) → IsPageRef p → encode_page_id p < U64
unfolding encode_page_id
encode_page_id_bound none h = omega arith
encode_page_id_bound (some p) h = omega arith

pub decode_page_id-encode_page_id :
    (p : Option ℕ) → IsPageRef p → decode_page_id (encode_page_id p) ≡ p
unfolding encode_page_id decode_page_id
decode_page_id-encode_page_id none h = refl
decode_page_id-encode_page_id (some p) h = ground arith

pub read_word-fits :
    (n : ℕ) (bytes : List ℕ) (offset : ℕ)
    → offset + n ≤ length bytes
    → read_word n bytes offset ≡ ok (from_le (slice offset n bytes))
unfolding read_word
read_word-fits n bytes offset h = rw (le→leb (offset + n) (length bytes) h)

-- A word that was written is read.
pub read_word-le_bytes :
    (n : ℕ) (bytes : List ℕ) (offset value : ℕ)
    → offset + n ≤ length bytes
    → slice offset n bytes ≡ le_bytes n value
    → value < 256 ^ n
    → read_word n bytes offset ≡ ok value
read_word-le_bytes n bytes offset value h written small =
    read_word-fits n bytes offset h ∙ ap ok (ap from_le written ∙ from_le-le_bytes n value small)

-- A buffer that holds the layout version passes the version check.
pub check_version_current : check_version (le_bytes 2 1) ≡ ok tt
unfolding check_version read_word le_bytes slice from_le
check_version_current = refl
