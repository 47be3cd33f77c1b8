-- ===== src/Storage/Btree/Cache/Laws.antt =====
-- cache.rs: the size of the cache, and which pages it returns.
use dodb.Storage.Btree.Entries.{PageData}
use dodb.Storage.Btree.Cache.{
  CacheEntry, PageCache, next_clock, touched, get, earlier, victim, remove_victim, evict,
  insert_page, insert, insert_many,
}
use dodb.Map
use dodb.Map.{IsOrder, find, remove, Sorted}
use dodb.Map.Order.{compare-IsOrder}
use dodb.Map.Lookup.{insert-Sorted, length-insert_found, cmp_refl, find_there, find_split}
use dodb.Map.Removal.{remove-Sorted, length-remove}
use dodb.Prelude.{
  ℕ, zero, suc, ◌<◌, ◌≤◌, compare, ◌≡◌, inl, inr, refl, ap, false, List, [], ◌∷◌, Option, none,
  some, ◌==◌, ltb, leb, length, Bool-cases, if_either, arith,
}

-- The entries are in the order of the page ids, and there are no more than fit.
abbrev pub WellFormed : PageCache → Type 0
WellFormed cache = Sorted compare cache.pages × (length cache.pages ≤ cache.capacity)

-- The victim is an entry of the map.
pub victim-find :
    (entry : ℕ × CacheEntry) (rest : List (ℕ × CacheEntry))
    → Sorted compare (entry ∷ rest)
    → find compare (earlier entry (victim rest)).0 (entry ∷ rest)
      ≡ some ((earlier entry (victim rest)).1)
victim-find (id, e) [] sorted = rw (cmp_refl compare compare-IsOrder id) refl
victim-find (id, e) (next ∷ rest) sorted =
    let m = earlier next (victim rest) in
    let all = (id, e) ∷ next ∷ rest in
    if_either (λ (w : ℕ × CacheEntry). find compare w.0 all ≡ some w.1)
      (leb e.last_used m.1.last_used) (id, e) m
      (λ least. rw (cmp_refl compare compare-IsOrder id) refl)
      (λ other.
        find_there compare compare-IsOrder m.0 id m.1 e (next ∷ rest) sorted
          (victim-find next rest sorted.1))

-- The victim has the lowest stamp.
pub victim-least :
    (entry : ℕ × CacheEntry) (rest : List (ℕ × CacheEntry)) (id : ℕ) (e : CacheEntry)
    → find compare id (entry ∷ rest) ≡ some e
    → (earlier entry (victim rest)).1.last_used ≤ e.last_used
victim-least (first, e0) [] id e found =
    elim (find_split compare compare-IsOrder id first e e0 [] found) [
      | inl (same_id, same) ↦ omega (arith, ap (λ (x : CacheEntry). x.last_used) same)
      | inr none_some ↦ absurd cc
    ]
victim-least (first, e0) (next ∷ rest) id e found =
    let m = earlier next (victim rest) in
    if_either (λ (w : ℕ × CacheEntry). w.1.last_used ≤ e.last_used) (leb e0.last_used m.1.last_used)
      (first, e0) m
      (λ least. elim (find_split compare compare-IsOrder id first e e0 (next ∷ rest) found) [
        | inl (same_id, same) ↦ omega (arith, ap (λ (x : CacheEntry). x.last_used) same)
        | inr later ↦
            let le : e0.last_used ≤ m.1.last_used = ground arith in
            omega (arith, le, victim-least next rest id e later)
      ])
      (λ other. elim (find_split compare compare-IsOrder id first e e0 (next ∷ rest) found) [
        | inl (same_id, same) ↦
            let lt : m.1.last_used < e0.last_used = ground arith in
            omega (arith, lt, ap (λ (x : CacheEntry). x.last_used) same)
        | inr later ↦ victim-least next rest id e later
      ])

evict-size :
    (fuel capacity : ℕ) (pages : List (ℕ × CacheEntry))
    → Sorted compare pages
    → length pages ≤ fuel
    → length (evict fuel capacity pages) ≤ capacity
unfolding evict
evict-size zero capacity [] sorted enough = omega arith
evict-size zero capacity (entry ∷ rest) sorted enough = absurd (omega arith)
evict-size (suc fuel) capacity [] sorted enough =
    let fits : ltb capacity 0 ≡ false = ground arith in rw fits (omega arith)
evict-size (suc fuel) capacity (entry ∷ rest) sorted enough =
    elim (Bool-cases (ltb capacity (length (entry ∷ rest)))) [
      | inl full ↦
          let w = earlier entry (victim rest) in
          let smaller =
            length-remove compare compare-IsOrder w.0 w.1 (entry ∷ rest)
              (victim-find entry rest sorted) in
          rw full (
            evict-size fuel capacity (remove compare w.0 (entry ∷ rest))
              (remove-Sorted compare compare-IsOrder w.0 (entry ∷ rest) sorted) (omega arith))
      | inr fits ↦ rw fits (ground arith)
    ]

pub evict-Sorted :
    (fuel capacity : ℕ) (pages : List (ℕ × CacheEntry))
    → Sorted compare pages
    → Sorted compare (evict fuel capacity pages)
unfolding evict
evict-Sorted zero capacity pages sorted = sorted
evict-Sorted (suc fuel) capacity pages sorted =
    if_either (Sorted compare) (ltb capacity (length pages)) _ pages
      (λ full.
        evict-Sorted fuel capacity (remove_victim (victim pages) pages)
          (remove_victim-Sorted (victim pages) pages sorted))
      (λ fits. sorted)
  where
    remove_victim-Sorted :
        (w : Option (ℕ × CacheEntry)) (pages : List (ℕ × CacheEntry))
        → Sorted compare pages
        → Sorted compare (remove_victim w pages)
    remove_victim-Sorted none pages sorted = sorted
    remove_victim-Sorted (some (id, e)) pages sorted =
        remove-Sorted compare compare-IsOrder id pages sorted

-- The cache stays within its capacity: if the entries of a cache are in order and no more than its
-- capacity, then they still are after `insert` of any page, also where the capacity is 0 or the
-- clock wraps around.
pub insert-WellFormed :
    (cache : PageCache) (page_id : ℕ) (page : PageData)
    → WellFormed cache
    → WellFormed (insert cache page_id page)
unfolding insert
insert-WellFormed cache page_id page (sorted, size) =
    let stamped : CacheEntry = record { page = page; last_used = next_clock cache } in
    let pages = Map.insert compare page_id stamped cache.pages in
    let sorted' = insert-Sorted compare compare-IsOrder page_id stamped cache.pages sorted in
    if_either WellFormed (cache.capacity == 0) cache
      (insert_page cache page_id page (next_clock cache)) (λ none_fit. (sorted, size))
      (λ some_fit. (
        evict-Sorted (length pages) cache.capacity pages sorted',
        evict-size (length pages) cache.capacity pages sorted' (omega arith),
      ))

pub insert_many-WellFormed :
    (cache : PageCache) (pages : List (ℕ × PageData))
    → WellFormed cache
    → WellFormed (insert_many cache pages)
unfolding insert_many
insert_many-WellFormed cache [] h = h
insert_many-WellFormed cache ((page_id, page) ∷ pages) h =
    insert_many-WellFormed (insert cache page_id page) pages
      (insert-WellFormed cache page_id page h)

touched-WellFormed :
    (cache : PageCache) (page_id clock : ℕ) (found : Option CacheEntry)
    → find compare page_id cache.pages ≡ found
    → WellFormed cache
    → WellFormed ((touched cache page_id clock found).0)
touched-WellFormed cache page_id clock none none_found h = h
touched-WellFormed cache page_id clock (some entry) found (sorted, size) =
    let stamped = record entry { last_used = clock } in
    (
      insert-Sorted compare compare-IsOrder page_id stamped cache.pages sorted,
      omega (
        arith,
        size,
        length-insert_found compare compare-IsOrder page_id entry stamped cache.pages found,
      ),
    )

-- `get` keeps a cache well-formed, whether it finds the page or not.
pub get-WellFormed :
    (cache : PageCache) (page_id : ℕ) → WellFormed cache → WellFormed ((get cache page_id).0)
unfolding get
get-WellFormed cache page_id h = touched-WellFormed cache page_id _ _ refl h
