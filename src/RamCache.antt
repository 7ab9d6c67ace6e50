-- ===== src/RamCache.antt =====
-- src/ram_cache/ram_cache.hpp and src/ram_cache/lru.cpp: the RAM cache with LRU replacement. The
-- list `_lru` holds the entries, the most recent first; the hash map `_entries` from a key to its
-- node is the search for the key in that list. Each operation is a step under the cache's lock, and
-- `get` is two of them. A `size_t` has 64 bits.
pub mod Budget
pub mod Recency
use cyclone_cache.Common.{
  ℕ, zero, suc, ◌+◌, ◌-◌, ◌%◌, ◌^◌, ◌<◌, ◌≤◌, ◌≡◌, List, [], ◌∷◌, ◌++◌, Bool, true, false, not,
  ◌&&◌, Option, none, some, length, ltb, ◌==◌, if◌then◌else◌,
}
use cyclone_cache.Common.Words.{word_add, word_sub}
use cyclone_cache.Key.{CacheKey, same_bytes}

-- `saturating_increment` of a 32-bit counter, without interference.
unfoldable pub saturating_increment : ℕ → ℕ
saturating_increment n = if n == 2 ^ 32 - 1 then n else n + 1

pub record RamCacheKey : Type 0 where
  pub cache_key : CacheKey
  pub alternate_id : ℕ

unfoldable pub same_key : RamCacheKey → RamCacheKey → Bool
same_key a b = same_bytes a.cache_key.hash b.cache_key.hash && a.alternate_id == b.alternate_id

pub record Entry : Type 0 where
  pub key : RamCacheKey
  pub bytes : List ℕ
  pub stamp : ℕ

pub record RamCacheLru : Type 0 where
  pub max_bytes : ℕ
  pub bytes_used : ℕ
  pub lru : List Entry
  pub hits : ℕ
  pub misses : ℕ
  pub evictions : ℕ
  pub generation : ℕ

unfoldable pub new_lru : ℕ → RamCacheLru
new_lru max_bytes = record {
  max_bytes = max_bytes;
  bytes_used = 0;
  lru = [];
  hits = 0;
  misses = 0;
  evictions = 0;
  generation = 0;
}

abbrev pub entry_size : Entry → ℕ
entry_size e = length e.bytes

-- `_entries.find`, and the erasure of the node it finds.
unfoldable pub find_entry : RamCacheKey → List Entry → Option Entry
find_entry rk [] = none
find_entry rk (e ∷ es) = let rest = find_entry rk es in if same_key rk e.key then some e else rest

unfoldable pub erase_entry : RamCacheKey → List Entry → List Entry
erase_entry rk [] = []
erase_entry rk (e ∷ es) = let rest = erase_entry rk es in if same_key rk e.key then es else e ∷ rest

-- `_lru.splice(_lru.begin(), _lru, node)`.
unfoldable pub to_front : RamCacheKey → List Entry → List Entry
to_front rk l = elim (find_entry rk l) [ none ↦ l | some e ↦ e ∷ erase_entry rk l ]

-- The first part of `get`, under the shared lock.
unfoldable pub get_lookup : RamCacheKey → RamCacheLru → RamCacheLru × Option Entry
get_lookup rk c = elim (find_entry rk c.lru) [
  | none ↦ (record c { misses = word_add c.misses 1 }, none)
  | some e ↦ (record c { hits = word_add c.hits 1 }, some e)
]

-- The second part, when the lock is free: the node that was found, or a new search for it.
unfoldable pub get_refresh : RamCacheKey → RamCacheLru → RamCacheLru
get_refresh rk c = record c { lru = to_front rk c.lru }

unfoldable pub get : Bool → RamCacheKey → RamCacheLru → RamCacheLru × Option Entry
get locked rk c =
    let (c', found) = get_lookup rk c in
    elim found [
      | none ↦ (c', none)
      | some e ↦ if locked then (get_refresh rk c', some e) else (c', some e)
    ]

-- `_lru.pop_back()` and the size of what it drops.
unfoldable pub without_last : List Entry → List Entry
without_last [] = []
without_last (e ∷ []) = []
without_last (e ∷ f ∷ l) = e ∷ without_last (f ∷ l)

unfoldable pub last_size : List Entry → ℕ
last_size [] = 0
last_size (e ∷ []) = entry_size e
last_size (e ∷ f ∷ l) = last_size (f ∷ l)

abbrev pub is_nil : List Entry → Bool
is_nil [] = true
is_nil (e ∷ l) = false

unfoldable pub evict_last : RamCacheLru → RamCacheLru
evict_last c = record c {
  bytes_used = word_sub c.bytes_used (last_size c.lru);
  lru = without_last c.lru;
  generation = word_add c.generation 1;
  evictions = word_add c.evictions 1;
}

unfoldable pub needs_room : ℕ → RamCacheLru → Bool
needs_room required c = ltb c.max_bytes (word_add c.bytes_used required) && not (is_nil c.lru)

-- The loop of `evict_if_needed`: each round drops an entry, so there are at most as many.
unfoldable pub evict_loop : ℕ → ℕ → RamCacheLru → RamCacheLru
evict_loop zero required c = c
evict_loop (suc n) required c =
    let rest = evict_loop n required (evict_last c) in if needs_room required c then rest else c

unfoldable pub evict_if_needed : ℕ → RamCacheLru → RamCacheLru
evict_if_needed required c = evict_loop (length c.lru) required c

unfoldable pub push_entry : Entry → RamCacheLru → RamCacheLru
push_entry e c = record c { lru = e ∷ c.lru; bytes_used = word_add c.bytes_used (entry_size e) }

-- The entry of the key takes the new bytes and moves to the front.
unfoldable pub replace_entry : Entry → Entry → RamCacheLru → RamCacheLru
replace_entry old e c = record c {
  lru = e ∷ erase_entry e.key c.lru;
  bytes_used = word_add (word_sub c.bytes_used (entry_size old)) (entry_size e);
}

-- `predicate` is the caller's check, run under the lock.
unfoldable pub put_if : Bool → Entry → RamCacheLru → RamCacheLru × Bool
put_if predicate e c =
    if ltb c.max_bytes (entry_size e)
    then (c, false)
    else if not predicate
    then (c, false)
    else elim (find_entry e.key c.lru) [
      | some old ↦ (evict_if_needed 0 (replace_entry old e c), true)
      | none ↦ (push_entry e (evict_if_needed (entry_size e) c), true)
    ]

unfoldable pub remove_entry : RamCacheKey → RamCacheLru → RamCacheLru × Bool
remove_entry rk c = elim (find_entry rk c.lru) [
  | none ↦ (c, false)
  | some e ↦ (
    record c {
      bytes_used = word_sub c.bytes_used (entry_size e);
      lru = erase_entry rk c.lru;
      generation = word_add c.generation 1;
    },
    true,
  )
]

-- `remove_all` drops every alternate of a key, in whatever order the map has them.
unfoldable pub without_key : CacheKey → List Entry → List Entry
without_key key [] = []
without_key key (e ∷ es) =
    let rest = without_key key es in
    if same_bytes e.key.cache_key.hash key.hash then rest else e ∷ rest

unfoldable pub used_without : CacheKey → List Entry → ℕ → ℕ
used_without key [] used = used
used_without key (e ∷ es) used =
    let dropped = used_without key es (word_sub used (entry_size e)) in
    let kept = used_without key es used in
    if same_bytes e.key.cache_key.hash key.hash then dropped else kept

unfoldable pub remove_all : CacheKey → RamCacheLru → RamCacheLru
remove_all key c = record c {
  bytes_used = used_without key c.lru c.bytes_used;
  lru = without_key key c.lru;
  generation = (c.generation + (length c.lru - length (without_key key c.lru))) % 2 ^ 64;
}

unfoldable pub clear_lru : RamCacheLru → RamCacheLru
clear_lru c = record c { lru = []; generation = word_add c.generation 1; bytes_used = 0 }

-- `put` is `put_if` with a predicate that always agrees.
unfoldable pub put : Entry → RamCacheLru → RamCacheLru × Bool
put e c = put_if true e c

pub record RamCacheStats : Type 0 where
  pub bytes_used : ℕ
  pub max_bytes : ℕ
  pub entry_count : ℕ
  pub hits : ℕ
  pub misses : ℕ
  pub evictions : ℕ

unfoldable pub stats : RamCacheLru → RamCacheStats
stats c = record {
  bytes_used = c.bytes_used;
  max_bytes = c.max_bytes;
  entry_count = length c.lru;
  hits = c.hits;
  misses = c.misses;
  evictions = c.evictions;
}
