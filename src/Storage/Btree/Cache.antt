-- ===== src/Storage/Btree/Cache.antt =====
-- crates/dodb-storage/src/btree/cache.rs: the cache of decoded pages, which drops the entry that was
-- used least recently. An operation returns the cache as it leaves it.
pub mod Laws
pub mod Recent
mod Tests
use dodb.Bytes.{U64}
use dodb.Storage.Btree.Entries.{PageData}
use dodb.Map
use dodb.Map.{find, remove}
use dodb.Prelude.{
  ℕ, zero, suc, ◌+◌, ◌%◌, compare, Bool, true, false, List, [], ◌∷◌, Option, none, some, ◌==◌, ltb,
  leb, length, if◌then◌else◌,
}

pub record CacheEntry : Type 0 where
  pub page : PageData
  pub last_used : ℕ

pub record PageCache : Type 0 where
  pub capacity : ℕ
  pub pages : List (ℕ × CacheEntry)
  pub clock : ℕ

abbrev pub new : ℕ → PageCache
new capacity = record { capacity = capacity; pages = []; clock = 0 }

-- `next_clock`, which wraps around.
abbrev pub next_clock : PageCache → ℕ
next_clock cache = (cache.clock + 1) % U64

-- The entry found, with its new stamp.
abbrev pub touched : PageCache → ℕ → ℕ → Option CacheEntry → PageCache × Option PageData
touched cache page_id clock none = (record cache { clock = clock }, none)
touched cache page_id clock (some entry) = (
  record cache {
    clock = clock;
    pages = Map.insert compare page_id (record entry { last_used = clock }) cache.pages;
  },
  some entry.page,
)

unfoldable pub get : PageCache → ℕ → PageCache × Option PageData
get cache page_id = touched cache page_id (next_clock cache) (find compare page_id cache.pages)

-- `min_by_key`: the first of the entries with the lowest stamp.
abbrev pub earlier : ℕ × CacheEntry → Option (ℕ × CacheEntry) → ℕ × CacheEntry
earlier entry none = entry
earlier entry (some other) = if leb entry.1.last_used other.1.last_used then entry else other

abbrev pub victim : List (ℕ × CacheEntry) → Option (ℕ × CacheEntry)
victim [] = none
victim (entry ∷ rest) = some (earlier entry (victim rest))

abbrev pub remove_victim : Option (ℕ × CacheEntry) → List (ℕ × CacheEntry) → List (ℕ × CacheEntry)
remove_victim none pages = pages
remove_victim (some (page_id, entry)) pages = remove compare page_id pages

-- The loop that drops entries. Each round drops one, so the number of entries is fuel enough.
unfoldable pub evict : ℕ → ℕ → List (ℕ × CacheEntry) → List (ℕ × CacheEntry)
evict zero capacity pages = pages
evict (suc fuel) capacity pages =
    let rest = evict fuel capacity (remove_victim (victim pages) pages) in
    if ltb capacity (length pages) then rest else pages

-- `insert` of a page, where the cache has room for any.
abbrev pub insert_page : PageCache → ℕ → PageData → ℕ → PageCache
insert_page cache page_id page clock =
    let pages =
      Map.insert compare page_id (record { page = page; last_used = clock }) cache.pages in
    record cache { clock = clock; pages = evict (length pages) cache.capacity pages }

unfoldable pub insert : PageCache → ℕ → PageData → PageCache
insert cache page_id page =
    if cache.capacity == 0 then cache else insert_page cache page_id page (next_clock cache)

unfoldable pub insert_many : PageCache → List (ℕ × PageData) → PageCache
insert_many cache [] = cache
insert_many cache ((page_id, page) ∷ pages) = insert_many (insert cache page_id page) pages

abbrev pub len : PageCache → ℕ
len cache = length cache.pages
