-- ===== src/Storage/Btree/Codec.antt =====
-- crates/dodb-storage/src/btree/format.rs: `PageData` and its codec over the page layer.
pub mod RoundTrip
use dodb.Core.Error.{Result, corruption}
use dodb.Storage.Page.{PageType, DecodedPage, new_header, encode_page}
use dodb.Storage.Btree.Entries.{LeafEntry, PageData}
use dodb.Storage.Btree.LeafPage.{encode_leaf, decode_leaf}
use dodb.Storage.Btree.InternalPage.{encode_internal, decode_internal}
use dodb.Storage.Btree.ChainPages.{encode_overflow, decode_overflow, encode_free, decode_free}
use dodb.Prelude.{ℕ, List, map, err, ◌>>=◌, ◌>>◌, fail_if, not, ◌==◌, if◌then◌else◌}

unfoldable pub page_type : PageData → PageType
page_type (PageData.leaf stamp next_leaf entries) = PageType.leaf
page_type (PageData.internal stamp leftmost_child entries) = PageType.internal
page_type (PageData.overflow stamp next total_length chunk) = PageType.overflow
page_type (PageData.free stamp next) = PageType.free

unfoldable pub lsn : PageData → ℕ
lsn (PageData.leaf stamp next_leaf entries) = stamp
lsn (PageData.internal stamp leftmost_child entries) = stamp
lsn (PageData.overflow stamp next total_length chunk) = stamp
lsn (PageData.free stamp next) = stamp

-- The body of `restamp`'s loop over the entries of a leaf.
unfoldable pub restamp_entry : ℕ → ℕ → LeafEntry → LeafEntry
restamp_entry provisional committed entry =
    if entry.revision == provisional then record entry { revision = committed } else entry

unfoldable pub restamp : ℕ → ℕ → PageData → PageData
restamp provisional committed (PageData.leaf stamp next_leaf entries) =
    PageData.leaf committed next_leaf (map (restamp_entry provisional committed) entries)
restamp provisional committed (PageData.internal stamp leftmost_child entries) =
    PageData.internal committed leftmost_child entries
restamp provisional committed (PageData.overflow stamp next total_length chunk) =
    PageData.overflow committed next total_length chunk
restamp provisional committed (PageData.free stamp next) = PageData.free committed next

unfoldable pub encode_body : PageData → Result (List ℕ)
encode_body (PageData.leaf stamp next_leaf entries) = encode_leaf next_leaf entries
encode_body (PageData.internal stamp leftmost_child entries) =
    encode_internal leftmost_child entries
encode_body (PageData.overflow stamp next total_length chunk) =
    encode_overflow next total_length chunk
encode_body (PageData.free stamp next) = encode_free next

-- `PageData::encode`; `crc32c` is the function of the crate of that name.
unfoldable pub encode : (List ℕ → ℕ) → ℕ → PageData → Result (List ℕ)
encode crc32c page_id page = do
  body ← encode_body page
  encode_page crc32c (new_header (page_type page) page_id (lsn page)) body

-- The `match` of `PageData::decode` on the page type.
unfoldable pub decode_body : PageType → ℕ → List ℕ → Result PageData
decode_body PageType.leaf page_lsn body = decode_leaf page_lsn body
decode_body PageType.internal page_lsn body = decode_internal page_lsn body
decode_body PageType.overflow page_lsn body = decode_overflow page_lsn body
decode_body PageType.free page_lsn body = decode_free page_lsn body
decode_body PageType.test page_lsn body = err corruption

-- `PageData::decode`
unfoldable pub decode : DecodedPage → Result PageData
decode page = do
  fail_if (not (page.header.flags == 0)) corruption
  decode_body page.header.page_type page.header.page_lsn page.body
