-- ===== src/Storage/Btree/Entries.antt =====
-- crates/dodb-storage/src/btree/format.rs: the decoded contents of pages, the limits, and the
-- readers that the page decoders share.
pub mod Laws
use dodb.Core.Error.{Error, Result, corruption, unsupported_format}
use dodb.Core.Key.{cmp_bytes}
use dodb.Bytes.{slice, from_le, U64}
use dodb.Prelude.{
  ℕ, ◌+◌, ◌-◌, ◌*◌, Bool, true, false, not, List, [], ◌∷◌, Option, none, some, ok, err, ◌>>=◌, ◌>>◌,
  fail_if, ◌==◌, leb, length, Ordering, if◌then◌else◌,
}

-- `BODY_SIZE`, `PAGE_SIZE - PAGE_HEADER_SIZE`
abbrev pub body_size : ℕ
body_size = 4064

abbrev pub null_page_id : ℕ
null_page_id = U64 - 1

abbrev pub layout_version : ℕ
layout_version = 1

abbrev pub max_value_size : ℕ
max_value_size = 64 * 1024 * 1024

-- `LEAF_HEADER_SIZE` and `INTERNAL_HEADER_SIZE`
abbrev pub slotted_header_size : ℕ
slotted_header_size = 32

abbrev pub slot_size : ℕ
slot_size = 8

pub data ValueRef : Type 0 where
  inline : List ℕ → ValueRef
  overflow : ℕ → ℕ → ValueRef

pub record LeafEntry : Type 0 where
  pub key : List ℕ
  pub revision : ℕ
  pub value : Option ValueRef

pub record InternalEntry : Type 0 where
  pub key : List ℕ
  pub right_child : ℕ

pub data PageData : Type 0 where
  leaf : ℕ → Option ℕ → List LeafEntry → PageData
  internal : ℕ → ℕ → List InternalEntry → PageData
  overflow : ℕ → Option ℕ → ℕ → List ℕ → PageData
  free : ℕ → Option ℕ → PageData

unfoldable pub encode_page_id : Option ℕ → ℕ
encode_page_id none = null_page_id
encode_page_id (some page_id) = page_id

unfoldable pub decode_page_id : ℕ → Option ℕ
decode_page_id value = if value == null_page_id then none else some value

unfoldable pub check_body_size : List ℕ → Result (Unit {0})
check_body_size body = fail_if (not (length body == body_size)) corruption

-- `read_u16` and `read_u64` are this at two and eight bytes.
unfoldable pub read_word : ℕ → List ℕ → ℕ → Result ℕ
read_word n bytes offset =
    if leb (offset + n) (length bytes) then ok (from_le (slice offset n bytes)) else err corruption

unfoldable pub check_version : List ℕ → Result (Unit {0})
check_version bytes = do
  version ← read_word 2 bytes 0
  fail_if (not (version == layout_version)) unsupported_format

-- `a < b` of `Vec<u8>`
abbrev pub lt_bytes : List ℕ → List ℕ → Bool
lt_bytes a b = elim (cmp_bytes a b) [ Ordering.lt ↦ true | _ ↦ false ]

-- `ensure_sorted_leaf` and `ensure_sorted_internal`, on the keys.
unfoldable pub ensure_sorted : List (List ℕ) → Result (Unit {0})
ensure_sorted [] = ok tt
ensure_sorted (k ∷ []) = ok tt
ensure_sorted (k ∷ next ∷ keys) =
    let rest = ensure_sorted (next ∷ keys) in if not (lt_bytes k next) then err corruption else rest
