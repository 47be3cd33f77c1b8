-- ===== src/Storage/Btree/Cache/Recent.antt =====
-- cache.rs: which pages an insertion keeps.
use dodb.Bytes.{U64}
use dodb.Storage.Btree.Entries.{PageData}
use dodb.Storage.Btree.Cache.{
  CacheEntry, PageCache, next_clock, touched, get, earlier, victim, evict, insert_page, insert,
}
use dodb.Storage.Btree.Cache.Laws.{victim-find, victim-least}
use dodb.Map
use dodb.Map.{find, remove, Sorted, Ordering-cases}
use dodb.Map.Order.{compare-IsOrder}
use dodb.Map.Lookup.{
  find-insert, find-insert_other, insert-Sorted, some-injective, find_there, cmp_refl,
}
use dodb.Map.Removal.{find-remove, find-remove_other, remove-Sorted}
use dodb.Prelude.{
  ℕ, zero, suc, ◌+◌, ◌<◌, ◌≤◌, compare, ◌≡◌, ◌≢◌, ◌⊎◌, inl, inr, refl, sym, subst, ap, ◌∙◌, false,
  List, [], ◌∷◌, Option, none, some, ◌==◌, ltb, length, Bool-cases, arith,
}

ℕ-cases : (a b : ℕ) → (a ≡ b) ⊎ (a ≢ b)
ℕ-cases a b = elim (Bool-cases (a == b)) [
  | inl same ↦ inl (ground arith)
  | inr other ↦ inr (λ e. ground arith)
]

-- What is found once the victim is gone was there before.
kept_before :
    (entry : ℕ × CacheEntry) (rest : List (ℕ × CacheEntry)) (id : ℕ) (e : CacheEntry) (w : ℕ)
    → Sorted compare (entry ∷ rest)
    → find compare id (remove compare w (entry ∷ rest)) ≡ some e
    → find compare id (entry ∷ rest) ≡ some e
kept_before entry rest id e w sorted found = elim (ℕ-cases w id) [
  | inl same ↦
      let gone : none ≡ some e =
        sym (find-remove compare compare-IsOrder id (entry ∷ rest) sorted)
        ∙ subst (λ v. find compare id (remove compare v (entry ∷ rest)) ≡ some e) same found in
      absurd cc
  | inr other ↦
      sym (find-remove_other compare compare-IsOrder w id (entry ∷ rest) sorted other) ∙ found
]

-- The evictions only drop entries.
evict_sound :
    (fuel capacity : ℕ) (pages : List (ℕ × CacheEntry)) (id : ℕ) (e : CacheEntry)
    → Sorted compare pages
    → find compare id (evict fuel capacity pages) ≡ some e
    → find compare id pages ≡ some e
unfolding evict
evict_sound zero capacity pages id e sorted found = found
evict_sound (suc fuel) capacity [] id e sorted found =
    let fits : ltb capacity 0 ≡ false = ground arith in rw fits at found
evict_sound (suc fuel) capacity (entry ∷ rest) id e sorted found =
    elim (Bool-cases (ltb capacity (length (entry ∷ rest)))) [
      | inl full ↦
          let w = earlier entry (victim rest) in
          kept_before entry rest id e w.0 sorted (
            evict_sound fuel capacity (remove compare w.0 (entry ∷ rest)) id e
              (remove-Sorted compare compare-IsOrder w.0 (entry ∷ rest) sorted) (rw full at found))
      | inr fits ↦ rw fits at found
    ]

-- An entry that the evictions drop has a stamp no later than those of the entries that stay.
evict-dropped :
    (fuel capacity : ℕ) (pages : List (ℕ × CacheEntry)) (id other : ℕ) (e e' : CacheEntry)
    → Sorted compare pages
    → find compare id pages ≡ some e
    → find compare id (evict fuel capacity pages) ≡ none
    → find compare other (evict fuel capacity pages) ≡ some e'
    → e.last_used ≤ e'.last_used
unfolding evict
evict-dropped zero capacity pages id other e e' sorted before after kept =
    let bad : none ≡ some e = sym after ∙ before in absurd cc
evict-dropped (suc fuel) capacity [] id other e e' sorted before after kept = cc
evict-dropped (suc fuel) capacity (entry ∷ rest) id other e e' sorted before after kept =
    elim (Bool-cases (ltb capacity (length (entry ∷ rest)))) [
      | inl full ↦
          let w = earlier entry (victim rest) in
          let left = remove compare w.0 (entry ∷ rest) in
          let left_sorted = remove-Sorted compare compare-IsOrder w.0 (entry ∷ rest) sorted in
          let kept' : find compare other (evict fuel capacity left) ≡ some e' = rw full at kept in
          elim (ℕ-cases w.0 id) [
            | inl same ↦
                let is_w : some w.1 ≡ some e =
                  sym (victim-find entry rest sorted)
                  ∙ ap (λ v. find compare v (entry ∷ rest)) same
                  ∙ before in
                let least = victim-least entry rest other e' (
                  kept_before entry rest other e' w.0 sorted
                    (evict_sound fuel capacity left other e' left_sorted kept')) in
                omega (arith, least, ap (λ (x : CacheEntry). x.last_used) (some-injective is_w))
            | inr apart ↦
                evict-dropped fuel capacity left id other e e' left_sorted
                  (find-remove_other compare compare-IsOrder w.0 id (entry ∷ rest) sorted apart
                    ∙ before)
                  (rw full at after) kept'
          ]
      | inr fits ↦ let bad : none ≡ some e = sym (rw fits at after) ∙ before in absurd cc
    ]

-- Two entries or more have one under another id.
another :
    (entry next : ℕ × CacheEntry) (rest : List (ℕ × CacheEntry)) (id : ℕ)
    → Sorted compare (entry ∷ next ∷ rest)
    → (other : ℕ) × (e : CacheEntry) × (find compare other (entry ∷ next ∷ rest) ≡ some e)
      × (other ≢ id)
another entry next rest id sorted = elim (ℕ-cases entry.0 id) [
  | inl same ↦
      let below : entry.0 < next.0 = ground (arith, sorted.0.0) in
      (
        next.0,
        next.1,
        find_there compare compare-IsOrder next.0 entry.0 next.1 entry.1 (next ∷ rest) sorted
            (rw (cmp_refl compare compare-IsOrder next.0) refl),
        λ e. omega arith,
      )
  | inr other ↦ (entry.0, entry.1, rw (cmp_refl compare compare-IsOrder entry.0) refl, other)
]

-- The entry with the latest stamp stays, if one entry fits.
evict-keeps :
    (fuel capacity : ℕ) (pages : List (ℕ × CacheEntry)) (id : ℕ) (e : CacheEntry)
    → Sorted compare pages
    → 1 ≤ capacity
    → find compare id pages ≡ some e
    → ((other : ℕ) (e' : CacheEntry)
        → find compare other pages ≡ some e'
        → other ≢ id
        → e'.last_used < e.last_used)
    → find compare id (evict fuel capacity pages) ≡ some e
unfolding evict
evict-keeps zero capacity pages id e sorted one found latest = found
evict-keeps (suc fuel) capacity [] id e sorted one found latest = cc
evict-keeps (suc fuel) capacity (entry ∷ []) id e sorted one found latest =
    let fits : ltb capacity 1 ≡ false = ground arith in rw fits found
evict-keeps (suc fuel) capacity (entry ∷ next ∷ rest) id e sorted one found latest =
    elim (Bool-cases (ltb capacity (length (entry ∷ next ∷ rest)))) [
      | inl full ↦
          let pages = entry ∷ next ∷ rest in
          let w = earlier entry (victim (next ∷ rest)) in
          let w_found = victim-find entry (next ∷ rest) sorted in
          let left = remove compare w.0 pages in
          elim (ℕ-cases w.0 id) [
            | inl same ↦
                let is_w : some w.1 ≡ some e =
                  sym w_found ∙ ap (λ v. find compare v pages) same ∙ found in
                let stamp = ap (λ (x : CacheEntry). x.last_used) (some-injective is_w) in
                let (other, e', other_found, apart) = another entry next rest id sorted in
                absurd (
                  omega (
                    arith,
                    stamp,
                    latest other e' other_found apart,
                    victim-least entry (next ∷ rest) other e' other_found,
                  ))
            | inr apart ↦ rw full (
                evict-keeps fuel capacity left id e
                  (remove-Sorted compare compare-IsOrder w.0 pages sorted) one
                  (find-remove_other compare compare-IsOrder w.0 id pages sorted apart ∙ found)
                  (λ other e' other_found other_apart.
                    latest other e'
                      (kept_before entry (next ∷ rest) other e' w.0 sorted other_found)
                      other_apart))
          ]
      | inr fits ↦ rw fits found
    ]

touched-page :
    (cache : PageCache) (page_id clock : ℕ) (found : Option CacheEntry) (entry : CacheEntry)
    → found ≡ some entry
    → (touched cache page_id clock found).1 ≡ some entry.page
touched-page cache page_id clock found entry same = rw same refl

-- A page just inserted is there: if the entries of a cache are in order, its capacity is not 0, its
-- clock does not wrap around, and no entry has a stamp later than the clock, then `get` after
-- `insert` of a page returns that page, whichever page had to make room for it.
pub get-insert :
    (cache : PageCache) (page_id : ℕ) (page : PageData)
    → Sorted compare cache.pages
    → 1 ≤ cache.capacity
    → cache.clock + 1 < U64
    → ((id : ℕ) (e : CacheEntry) → find compare id cache.pages ≡ some e → e.last_used ≤ cache.clock)
    → (get (insert cache page_id page) page_id).1 ≡ some page
unfolding get insert
get-insert cache page_id page sorted one no_wrap stamps =
    let clock = next_clock cache in
    let clock_eq : clock ≡ cache.clock + 1 = omega arith in
    let stamped : CacheEntry = record { page = page; last_used = clock } in
    let pages = Map.insert compare page_id stamped cache.pages in
    let some_fit : (cache.capacity == 0) ≡ false = ground arith in
    let kept =
      evict-keeps (length pages) cache.capacity pages page_id stamped
        (insert-Sorted compare compare-IsOrder page_id stamped cache.pages sorted) one
        (find-insert compare compare-IsOrder page_id stamped cache.pages)
        (λ other e' found apart.
          let old =
            sym (
              find-insert_other compare compare-IsOrder page_id other stamped cache.pages
                (λ e. apart (sym e)))
            ∙ found in
          omega (arith, clock_eq, stamps other e' old)) in
    rw some_fit (touched-page (insert_page cache page_id page clock) page_id _ _ stamped kept)

-- The entry that is dropped is one used least recently: if the entries of a cache are in order and
-- its capacity is not 0, and an entry under another page id is gone after `insert` of a page, then
-- no entry that is there afterwards has an earlier stamp.
pub insert-least_recent :
    (cache : PageCache) (page_id : ℕ) (page : PageData) (id other : ℕ) (e e' : CacheEntry)
    → Sorted compare cache.pages
    → 1 ≤ cache.capacity
    → page_id ≢ id
    → find compare id cache.pages ≡ some e
    → find compare id (insert cache page_id page).pages ≡ none
    → find compare other (insert cache page_id page).pages ≡ some e'
    → e.last_used ≤ e'.last_used
unfolding insert
insert-least_recent cache page_id page id other e e' sorted one apart before after kept =
    let stamped : CacheEntry = record { page = page; last_used = next_clock cache } in
    let pages = Map.insert compare page_id stamped cache.pages in
    let some_fit : (cache.capacity == 0) ≡ false = ground arith in
    evict-dropped (length pages) cache.capacity pages id other e e'
      (insert-Sorted compare compare-IsOrder page_id stamped cache.pages sorted)
      (find-insert_other compare compare-IsOrder page_id id stamped cache.pages apart ∙ before)
      (rw some_fit at after) (rw some_fit at kept)
