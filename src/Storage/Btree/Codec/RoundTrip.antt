-- ===== src/Storage/Btree/Codec/RoundTrip.antt =====
-- format.rs: `PageData::encode` and `PageData::decode` together.
use dodb.Core.Error.{Result}
use dodb.Bytes.{zeros, U32, U64}
use dodb.Storage.Page.{PageType, new_header, encode_page, decode_page_at}
use dodb.Storage.Page.Layout.{IsHeader}
use dodb.Storage.Page.RoundTrip.{decode_page_at-encode_page}
use dodb.Storage.Btree.Entries.{PageData, check_body_size}
use dodb.Storage.Btree.Entries.Laws.{IsPageRef}
use dodb.Storage.Btree.LeafPage.{decode_leaf}
use dodb.Storage.Btree.LeafPage.Entry.{IsLeafEntry}
use dodb.Storage.Btree.LeafPage.RoundTrip.{decode_leaf-encode_leaf}
use dodb.Storage.Btree.InternalPage.{decode_internal}
use dodb.Storage.Btree.InternalPage.Entry.{IsInternalEntry}
use dodb.Storage.Btree.InternalPage.RoundTrip.{decode_internal-encode_internal}
use dodb.Storage.Btree.ChainPages.{decode_overflow, decode_free}
use dodb.Storage.Btree.ChainPages.RoundTrip.{
  decode_overflow-encode_overflow, decode_free-encode_free,
}
use dodb.Storage.Btree.Codec.{page_type, lsn, encode_body, encode, decode_body, decode}
use dodb.Prelude.{
  ℕ, ◌-◌, ◌<◌, ◌≡◌, ap, ◌∙◌, List, ◌++◌, append-nil, some, ok, length, All, arith, ◌>>=◌, >>=-eq-ok,
}

-- The contents of a page are in the range of the types, and no page id is the null mark.
abbrev pub IsPageData : PageData → Type 0
IsPageData (PageData.leaf stamp next_leaf entries) =
    (stamp < U64) × IsPageRef next_leaf × All IsLeafEntry entries
IsPageData (PageData.internal stamp leftmost_child entries) =
    (stamp < U64) × (leftmost_child < U64) × All IsInternalEntry entries
IsPageData (PageData.overflow stamp next total_length chunk) = (stamp < U64) × IsPageRef next
IsPageData (PageData.free stamp next) = (stamp < U64) × IsPageRef next

lsn-IsPageData : (page : PageData) → IsPageData page → lsn page < U64
unfolding lsn
lsn-IsPageData (PageData.leaf stamp next_leaf entries) h = h.0
lsn-IsPageData (PageData.internal stamp leftmost_child entries) h = h.0
lsn-IsPageData (PageData.overflow stamp next total_length chunk) h = h.0
lsn-IsPageData (PageData.free stamp next) h = h.0

decode_body-encode_body :
    (page : PageData) (body : List ℕ)
    → IsPageData page
    → encode_body page ≡ ok body
    → decode_body (page_type page) (lsn page) body ≡ ok page
unfolding encode_body decode_body page_type lsn
decode_body-encode_body (PageData.leaf stamp next_leaf entries) body h e =
    let (stamp_u64, ref, entries_range) = h in
    decode_leaf-encode_leaf stamp next_leaf entries body ref entries_range e
decode_body-encode_body (PageData.internal stamp leftmost_child entries) body h e =
    let (stamp_u64, child_u64, entries_range) = h in
    decode_internal-encode_internal stamp leftmost_child entries body child_u64 entries_range e
decode_body-encode_body (PageData.overflow stamp next total_length chunk) body h e =
    decode_overflow-encode_overflow stamp next total_length chunk body h.1 e
decode_body-encode_body (PageData.free stamp next) body h e =
    decode_free-encode_free stamp next body h.1 e

-- Each decoder begins with the check of the body's size.
checked :
    {A : Type 0} (body : List ℕ) (next : Unit {0} → Result A) {a : A}
    → (check_body_size body >>= next) ≡ ok a
    → length body ≡ 4064
unfolding check_body_size
checked body next h =
    let (done, size, rest) = >>=-eq-ok (check_body_size body) next h in ground (arith, size)

decode_body-size :
    (t : PageType) (page_lsn : ℕ) (body : List ℕ) {page : PageData}
    → decode_body t page_lsn body ≡ ok page
    → length body ≡ 4064
unfolding decode_body decode_leaf decode_internal decode_overflow decode_free
decode_body-size PageType.leaf page_lsn body h = checked body _ h
decode_body-size PageType.internal page_lsn body h = checked body _ h
decode_body-size PageType.overflow page_lsn body h = checked body _ h
decode_body-size PageType.free page_lsn body h = checked body _ h
decode_body-size PageType.test page_lsn body h = cc

module _ (crc32c : List ℕ → ℕ) where
  -- `decode_page_at` followed by `PageData::decode`, as the tree reads a page.
  abbrev pub read_page : List ℕ → ℕ → Result PageData
  read_page bytes page_id = decode_page_at crc32c bytes (some page_id) >>= decode

  module _ (page : PageData) (page_id : ℕ) (body bytes : List ℕ)
      (crc_u32 : (input : List ℕ) → crc32c input < U32) (id_u64 : page_id < U64)
      (in_range : IsPageData page) (body_ok : encode_body page ≡ ok body)
      (page_ok : encode_page crc32c (new_header (page_type page) page_id (lsn page)) body
        ≡ ok bytes) where
    read_back : decode_body (page_type page) (lsn page) body ≡ ok page
    read_back = decode_body-encode_body page body in_range body_ok

    no_padding : body ++ zeros (4064 - length body) ≡ body
    unfolding zeros
    no_padding =
        ap (λ n. body ++ zeros n)
          (let e : 4064 - length body ≡ 0 =
              omega (arith, decode_body-size (page_type page) (lsn page) body read_back) in
            e)
        ∙ append-nil body

    new_header-IsHeader : IsHeader (new_header (page_type page) page_id (lsn page))
    unfolding new_header
    new_header-IsHeader = record {
      id_u64 = id_u64;
      lsn_u64 = lsn-IsPageData page in_range;
      flags_u32 = omega arith;
    }

    read_page-body : read_page bytes page_id ≡ ok page
    unfolding new_header decode
    read_page-body =
        rw
          (
            decode_page_at-encode_page crc32c (new_header (page_type page) page_id (lsn page)) body
                bytes crc_u32 new_header-IsHeader page_ok,
            no_padding,
          )
          read_back

  -- If the checksum function returns 32-bit values, the page id is a 64-bit number and the
  -- contents are in range (no page id in them is the null mark), a page that PageData::encode
  -- returns is read, at its page id, as the same contents.
  pub read_page-encode :
      (page : PageData) (page_id : ℕ) (bytes : List ℕ)
      → ((input : List ℕ) → crc32c input < U32)
      → page_id < U64
      → IsPageData page
      → encode crc32c page_id page ≡ ok bytes
      → read_page bytes page_id ≡ ok page
  unfolding encode
  read_page-encode page page_id bytes crc_u32 id_u64 in_range e =
      let (body, body_ok, page_ok) = >>=-eq-ok (encode_body page) _ e in
      read_page-body page page_id body bytes crc_u32 id_u64 in_range body_ok page_ok
