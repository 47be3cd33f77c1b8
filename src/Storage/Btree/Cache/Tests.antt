-- ===== src/Storage/Btree/Cache/Tests.antt =====
-- The theorems on the page cache at a cache of two pages that is full.
use dodb.Storage.Btree.Entries.{PageData}
use dodb.Storage.Btree.Cache.{CacheEntry, PageCache, get, evict, insert}
use dodb.Storage.Btree.Cache.Laws.{WellFormed, insert-WellFormed, get-WellFormed}
use dodb.Storage.Btree.Cache.Recent.{get-insert, insert-least_recent}
use dodb.Map.{find}
use dodb.Map.Order.{compare-IsOrder}
use dodb.Map.Lookup.{find-All}
use dodb.Prelude.{ℕ, ◌≤◌, ◌≡◌, refl, compare, [], ◌∷◌, none, some, arith}

abbrev page : ℕ → PageData
page lsn = PageData.free lsn none

abbrev entry : ℕ → CacheEntry
entry stamp = record { page = page stamp; last_used = stamp }

-- Page 4 was used first.
abbrev cache : PageCache
cache = record { capacity = 2; pages = (4, entry 1) ∷ (9, entry 2) ∷ []; clock = 2 }

cache-WellFormed : WellFormed cache
cache-WellFormed = (((refl, tt), (tt, tt)), omega arith)

insert-WellFormed_example : WellFormed (insert cache 6 (page 7))
insert-WellFormed_example = insert-WellFormed cache 6 (page 7) cache-WellFormed

get-WellFormed_example : WellFormed ((get cache 4).0)
get-WellFormed_example = get-WellFormed cache 4 cache-WellFormed

cache_stamps :
    (id : ℕ) (e : CacheEntry) → find compare id cache.pages ≡ some e → e.last_used ≤ cache.clock
cache_stamps id e found =
    find-All compare compare-IsOrder (λ (x : ℕ × CacheEntry). x.1.last_used ≤ 2) id e cache.pages
      (omega arith, (omega arith, tt)) found

get-insert_example : (get (insert cache 6 (page 7)) 6).1 ≡ some (page 7)
get-insert_example =
    get-insert cache 6 (page 7) cache-WellFormed.0 (omega arith) (omega arith) cache_stamps

dropped : find compare 4 (insert cache 6 (page 7)).pages ≡ none
unfolding insert evict
dropped = refl

stays : find compare 9 (insert cache 6 (page 7)).pages ≡ some (entry 2)
unfolding insert evict
stays = refl

insert-least_recent_example : (entry 1).last_used ≤ (entry 2).last_used
insert-least_recent_example =
    insert-least_recent cache 6 (page 7) 4 9 (entry 1) (entry 2) cache-WellFormed.0 (omega arith)
      (λ e. omega arith) refl dropped stays
