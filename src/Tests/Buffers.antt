-- ===== src/Tests/Buffers.antt =====
-- The write buffer and the RAM cache on small inputs.
use cyclone_cache.Common.{◌≡◌, ◌≤◌, ◌++◌, refl, List, ℕ, true, some, [], ◌∷◌, arith, length}
use cyclone_cache.Key.{zero_key}
use cyclone_cache.WriteBuffer.{WriteBuffer, done, append, contents}
use cyclone_cache.WriteBuffer.Appended.{IsBuffer, contents-append}
use cyclone_cache.RamCache.{Entry, RamCacheLru, put_if, get, remove_entry, remove_all}
use cyclone_cache.RamCache.Budget.{IsCache, put_if-IsCache, removals-IsCache}
use cyclone_cache.RamCache.Recency.{get-put_if}

abbrev held : WriteBuffer
held = record { buffer = 1 ∷ 2 ∷ 0 ∷ []; size = 2; max_size = 8 }

abbrev held-IsBuffer : IsBuffer held
held-IsBuffer = record { inside = omega arith; limit = omega arith }

contents-append_example :
    ((append (7 ∷ 8 ∷ 9 ∷ []) held).1 ≡ done)
    × (contents (append (7 ∷ 8 ∷ 9 ∷ []) held).0 ≡ contents held ++ 7 ∷ 8 ∷ 9 ∷ [])
    × ((append (7 ∷ 8 ∷ 9 ∷ []) held).0.size ≤ length (append (7 ∷ 8 ∷ 9 ∷ []) held).0.buffer)
contents-append_example =
    contents-append (7 ∷ 8 ∷ 9 ∷ []) held held-IsBuffer (omega arith) (omega arith)

abbrev entry : ℕ → List ℕ → Entry
entry id bytes = record {
  key = record { cache_key = zero_key; alternate_id = id };
  bytes = bytes;
  stamp = 5;
}

-- Two entries that fill the budget of five bytes.
abbrev full : RamCacheLru
full = record {
  max_bytes = 5;
  bytes_used = 5;
  lru = entry 1 (1 ∷ 2 ∷ 3 ∷ []) ∷ entry 2 (4 ∷ 5 ∷ []) ∷ [];
  hits = 0;
  misses = 0;
  evictions = 0;
  generation = 0;
}

abbrev full-IsCache : IsCache full
full-IsCache = record { used = refl; budget = omega arith; room = omega arith }

put_if-IsCache_example : IsCache (put_if true (entry 3 (6 ∷ 7 ∷ 8 ∷ [])) full).0
put_if-IsCache_example = put_if-IsCache true (entry 3 (6 ∷ 7 ∷ 8 ∷ [])) full full-IsCache

removals-IsCache_example :
    IsCache (remove_entry (entry 2 []).key full).0 × IsCache (remove_all zero_key full)
removals-IsCache_example = removals-IsCache (entry 2 []).key zero_key full full-IsCache

get-put_if_example :
    ((put_if true (entry 2 (6 ∷ 7 ∷ 8 ∷ [])) full).1 ≡ true)
    × ((get true (entry 2 []).key (put_if true (entry 2 (6 ∷ 7 ∷ 8 ∷ [])) full).0).1
        ≡ some (entry 2 (6 ∷ 7 ∷ 8 ∷ [])))
get-put_if_example = get-put_if true (entry 2 (6 ∷ 7 ∷ 8 ∷ [])) full full-IsCache (omega arith)
