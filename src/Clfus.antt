-- ===== src/Clfus.antt =====
-- src/ram_cache/clfus.cpp: a segment of the RAM cache with CLFUS replacement. The map `_entry_map` from
-- a key to its node is the search for the key in the two lists, the most recent entry first, and
-- `in_cache` is which of the two holds it. The average value of the evicted entries is a double, whose
-- arithmetic is a parameter. A `size_t` has 64 bits.
pub mod Operations
pub mod Budget
pub mod Rounds
pub mod Stored
pub mod Changes
pub mod Served
use cyclone_cache.Common.{
  ℕ, zero, suc, ◌+◌, ◌-◌, ◌/◌, ◌%◌, List, [], ◌∷◌, Bool, true, false, not, ◌&&◌, ◌||◌, Option, none,
  some, length, map, drop, get_or, set, bit_xor, replicate, ltb, ◌==◌, if◌then◌else◌,
}
use cyclone_cache.Common.Bytes.{le_bytes}
use cyclone_cache.Common.Words.{word_add, word_sub}
use cyclone_cache.Key.{CacheKey, same_bytes, bucket_hash}
use cyclone_cache.RamCache.{RamCacheKey, same_key, saturating_increment}

abbrev pub requeue_limit : ℕ
requeue_limit = 100

abbrev pub max_history : ℕ
max_history = 1024

-- The arithmetic of the average: `update` takes the hits and the size of an evicted entry, `above` tells
-- whether the value of an entry with these is above the average.
pub record Averages (Value : Type 0) : Type 0 where
  pub start : Value
  pub update : ℕ → ℕ → Value → Value
  pub above : ℕ → ℕ → Value → Bool

pub record ClfusEntry : Type 0 where
  pub key : RamCacheKey
  pub bytes : List ℕ
  pub hits : ℕ
  pub stamp : ℕ

pub record Segment (Value : Type 0) : Type 0 where
  pub max_bytes : ℕ
  pub bytes_used : ℕ
  pub active_lru : List ClfusEntry
  pub history_lru : List ClfusEntry
  pub seen_filter : List ℕ
  pub average_value : Value
  pub hit_count : ℕ
  pub misses : ℕ
  pub evictions : ℕ

abbrev pub data_size : ClfusEntry → ℕ
data_size e = length e.bytes

unfoldable pub new_segment : {Value : Type 0} → Averages Value → ℕ → ℕ → Segment Value
new_segment averages max_bytes seen_filter_size = record {
  max_bytes = max_bytes;
  bytes_used = 0;
  active_lru = [];
  history_lru = [];
  seen_filter = replicate seen_filter_size 0;
  average_value = averages.start;
  hit_count = 0;
  misses = 0;
  evictions = 0;
}

unfoldable pub find_in : RamCacheKey → List ClfusEntry → Option ClfusEntry
find_in rk [] = none
find_in rk (e ∷ es) = let rest = find_in rk es in if same_key rk e.key then some e else rest

unfoldable pub erase_in : RamCacheKey → List ClfusEntry → List ClfusEntry
erase_in rk [] = []
erase_in rk (e ∷ es) = let rest = erase_in rk es in if same_key rk e.key then es else e ∷ rest

unfoldable pub hit_in : RamCacheKey → List ClfusEntry → List ClfusEntry
hit_in rk [] = []
hit_in rk (e ∷ es) =
    let rest = hit_in rk es in
    if same_key rk e.key then record e { hits = saturating_increment e.hits } ∷ es else e ∷ rest

unfoldable pub compute_seen_tag : RamCacheKey → ℕ
compute_seen_tag rk = bit_xor (le_bytes 2 (drop 16 rk.cache_key.hash)) rk.alternate_id

unfoldable pub seen_index : {Value : Type 0} → RamCacheKey → Segment Value → ℕ
seen_index rk s = bucket_hash rk.cache_key % length s.seen_filter

unfoldable pub check_seen : {Value : Type 0} → RamCacheKey → Segment Value → Bool
check_seen rk s = get_or s.seen_filter (seen_index rk s) 0 == compute_seen_tag rk

unfoldable pub mark_seen : {Value : Type 0} → RamCacheKey → Segment Value → Segment Value
mark_seen rk s = record s {
  seen_filter = set s.seen_filter (seen_index rk s) (compute_seen_tag rk);
}

unfoldable pub segment_get :
    {Value : Type 0} → RamCacheKey → Segment Value → Segment Value × Option ClfusEntry
segment_get rk s = elim (find_in rk s.active_lru) [
  | none ↦ (record s { misses = word_add s.misses 1 }, none)
  | some e ↦
      (record s { active_lru = hit_in rk s.active_lru; hit_count = word_add s.hit_count 1 }, some e)
]

unfoldable pub back : List ClfusEntry → Option ClfusEntry
back [] = none
back (e ∷ []) = some e
back (e ∷ f ∷ l) = back (f ∷ l)

unfoldable pub without_back : List ClfusEntry → List ClfusEntry
without_back [] = []
without_back (e ∷ []) = []
without_back (e ∷ f ∷ l) = e ∷ without_back (f ∷ l)

-- The loop that bounds the history: each round drops an entry, so there are at most as many.
unfoldable pub trim_history : ℕ → List ClfusEntry → List ClfusEntry
trim_history zero l = l
trim_history (suc n) l =
    let rest = trim_history n (without_back l) in if ltb max_history (length l) then rest else l

-- The victim goes to the front with half its hits.
unfoldable pub requeue : {Value : Type 0} → ClfusEntry → Segment Value → Segment Value
requeue victim s = record s {
  active_lru = record victim { hits = victim.hits / 2 } ∷ without_back s.active_lru;
}

-- The victim loses its data and goes to the history.
unfoldable pub retire :
    {Value : Type 0} → Averages Value → ClfusEntry → Segment Value → Segment Value
retire averages victim s =
    let history = record victim { bytes = [] } ∷ s.history_lru in
    record s {
      average_value = averages.update victim.hits (data_size victim) s.average_value;
      bytes_used = word_sub s.bytes_used (data_size victim);
      active_lru = without_back s.active_lru;
      history_lru = trim_history (length history) history;
      evictions = word_add s.evictions 1;
    }

unfoldable pub evict_round :
    {Value : Type 0} → Averages Value → ℕ → Segment Value → Segment Value × ℕ
evict_round averages requeues s = elim (back s.active_lru) [
  | none ↦ (s, requeues)
  | some victim ↦
      if ltb 0 victim.hits && ltb requeues requeue_limit
      then (requeue victim s, suc requeues)
      else (retire averages victim s, requeues)
]

abbrev pub is_empty : List ClfusEntry → Bool
is_empty [] = true
is_empty (e ∷ l) = false

unfoldable pub over_budget : {Value : Type 0} → ℕ → Segment Value → Bool
over_budget required s =
    ltb s.max_bytes (word_add s.bytes_used required) && not (is_empty s.active_lru)

unfoldable pub evict_rounds :
    {Value : Type 0} → Averages Value → ℕ → ℕ → ℕ → Segment Value → Segment Value
evict_rounds averages zero required requeues s = s
evict_rounds averages (suc n) required requeues s =
    let next = evict_round averages requeues s in
    let rest = evict_rounds averages n required next.1 next.0 in
    if over_budget required s then rest else s

-- Each round drops an entry or is one of the requeues, which are limited.
unfoldable pub make_room : {Value : Type 0} → Averages Value → ℕ → Segment Value → Segment Value
make_room averages required s =
    evict_rounds averages (requeue_limit + length s.active_lru) required 0 s
