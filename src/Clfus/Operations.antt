-- ===== src/Clfus/Operations.antt =====
-- src/ram_cache/clfus.cpp: the put and the removals of a segment.
use cyclone_cache.Common.{
  ℕ, List, [], ◌∷◌, Bool, true, false, not, ◌||◌, none, some, map, ltb, if◌then◌else◌,
}
use cyclone_cache.Common.Words.{word_add, word_sub}
use cyclone_cache.Key.{CacheKey, same_bytes}
use cyclone_cache.RamCache.{RamCacheKey, saturating_increment}
use cyclone_cache.Clfus.{
  Averages, ClfusEntry, Segment, data_size, find_in, erase_in, hit_in, check_seen, mark_seen,
  make_room,
}

-- The new data in an entry that was taken off its list, at the front.
unfoldable pub put_back : {Value : Type 0} → ClfusEntry → ClfusEntry → Segment Value → Segment Value
put_back old new s = record s {
  active_lru =
      record old { bytes = new.bytes; stamp = new.stamp; hits = saturating_increment old.hits }
      ∷ s.active_lru;
  bytes_used = word_add s.bytes_used (data_size new);
}

unfoldable pub overwrite :
    {Value : Type 0} → Averages Value → ClfusEntry → ClfusEntry → Segment Value → Segment Value
overwrite averages old new s =
    let off = record s {
      bytes_used = word_sub s.bytes_used (data_size old);
      active_lru = erase_in new.key s.active_lru;
    } in
    put_back old new (make_room averages (data_size new) off)

unfoldable pub promote_from_history :
    {Value : Type 0} → Averages Value → ClfusEntry → ClfusEntry → Segment Value → Segment Value
promote_from_history averages old new s =
    let off = record s { history_lru = erase_in new.key s.history_lru } in
    put_back old new (make_room averages (data_size new) off)

unfoldable pub push_new :
    {Value : Type 0} → Averages Value → ClfusEntry → Segment Value → Segment Value
push_new averages new s =
    let made = make_room averages (data_size new) s in
    record made {
      active_lru = record new { hits = 0 } ∷ made.active_lru;
      bytes_used = word_add made.bytes_used (data_size new);
    }

-- The part of `put` for a key that is not in the active list.
unfoldable pub put_absent :
    {Value : Type 0} → Averages Value → ClfusEntry → Segment Value → Segment Value × Bool
put_absent averages new s = elim (find_in new.key s.history_lru) [
  | some old ↦
      if averages.above old.hits (data_size old) s.average_value || ltb 0 old.hits
      then (promote_from_history averages old new s, true)
      else (record s { history_lru = hit_in new.key s.history_lru }, false)
  | none ↦
      if not (check_seen new.key s)
      then (mark_seen new.key s, false)
      else (push_new averages new s, true)
]

-- `predicate` is the caller's check, run under the lock; the hits of `new` are not read.
unfoldable pub segment_put :
    {Value : Type 0} → Averages Value → Bool → ClfusEntry → Segment Value → Segment Value × Bool
segment_put averages predicate new s =
    if ltb s.max_bytes (data_size new)
    then (s, false)
    else if not predicate
    then (s, false)
    else elim (find_in new.key s.active_lru) [
      | some old ↦ (overwrite averages old new s, true)
      | none ↦ put_absent averages new s
    ]

unfoldable pub segment_remove :
    {Value : Type 0} → RamCacheKey → Segment Value → Segment Value × Bool
segment_remove rk s = elim (find_in rk s.active_lru) [
  | some e ↦ (
    record s {
      bytes_used = word_sub s.bytes_used (data_size e);
      active_lru = erase_in rk s.active_lru;
    },
    true,
  )
  | none ↦ elim (find_in rk s.history_lru) [
    | some e ↦ (record s { history_lru = erase_in rk s.history_lru }, true)
    | none ↦ (s, false)
  ]
]

-- `remove_all` drops every alternate of a key from both lists, in whatever order the map has them.
unfoldable pub others_in : CacheKey → List ClfusEntry → List ClfusEntry
others_in key [] = []
others_in key (e ∷ es) =
    let rest = others_in key es in
    if same_bytes e.key.cache_key.hash key.hash then rest else e ∷ rest

unfoldable pub used_by_others : CacheKey → List ClfusEntry → ℕ → ℕ
used_by_others key [] used = used
used_by_others key (e ∷ es) used =
    let same = same_bytes e.key.cache_key.hash key.hash in
    used_by_others key es (if same then word_sub used (data_size e) else used)

unfoldable pub segment_remove_all : {Value : Type 0} → CacheKey → Segment Value → Segment Value
segment_remove_all key s = record s {
  bytes_used = used_by_others key s.active_lru s.bytes_used;
  active_lru = others_in key s.active_lru;
  history_lru = others_in key s.history_lru;
}

unfoldable pub clear_segment : {Value : Type 0} → Averages Value → Segment Value → Segment Value
clear_segment averages s = record s {
  active_lru = [];
  history_lru = [];
  seen_filter = map (λ tag. 0) s.seen_filter;
  bytes_used = 0;
  average_value = averages.start;
}
