-- ===== src/Tests/Segments.antt =====
-- A segment of the CLFUS cache on small inputs.
use cyclone_cache.Common.{◌≡◌, ◌+◌, ◌/◌, ◌*◌, refl, List, ℕ, true, [], ◌∷◌, arith, ltb}
use cyclone_cache.Key.{zero_key}
use cyclone_cache.RamCache.{RamCacheKey}
use cyclone_cache.Clfus.{
  Averages, ClfusEntry, Segment, evict_rounds, over_budget, evict_round, back, without_back,
  requeue, retire,
}
use cyclone_cache.Clfus.Operations.{segment_put, segment_remove, segment_remove_all}
use cyclone_cache.Clfus.Stored.{IsSegment}
use cyclone_cache.Clfus.Changes.{changes-IsSegment}
use cyclone_cache.Clfus.Served.{PutOutcome, segment_put-PutOutcome}

-- An average in whole parts of a thousand.
abbrev thousandths : Averages ℕ
thousandths = record {
  start = 0;
  update = λ hits size average. ((hits + 1) * 1000 / (size + 256) + 9 * average) / 10;
  above = λ hits size average. ltb average ((hits + 1) * 1000 / (size + 256));
}

abbrev alternate : ℕ → RamCacheKey
alternate id = record { cache_key = zero_key; alternate_id = id }

abbrev stored_entry : ℕ → ℕ → List ℕ → ClfusEntry
stored_entry id hits bytes = record { key = alternate id; bytes = bytes; hits = hits; stamp = 5 }

-- Two entries that fill the budget of five bytes, the last used with hits, and the tag of the third
-- alternate in the filter.
abbrev full_segment : Segment ℕ
full_segment = record {
  max_bytes = 5;
  bytes_used = 5;
  active_lru = stored_entry 1 0 (1 ∷ 2 ∷ 3 ∷ []) ∷ stored_entry 2 3 (4 ∷ 5 ∷ []) ∷ [];
  history_lru = stored_entry 4 0 [] ∷ [];
  seen_filter = 3 ∷ 0 ∷ [];
  average_value = 0;
  hit_count = 0;
  misses = 0;
  evictions = 0;
}

abbrev full-IsSegment : IsSegment full_segment
full-IsSegment = record {
  counted = record { used = refl; bounded = omega arith; no_data = refl };
  budget = omega arith;
  room = omega arith;
}

abbrev third : ClfusEntry
third = stored_entry 3 0 (6 ∷ 7 ∷ 8 ∷ [])

-- The entry with hits is put off, and the other one is evicted.
kept_by_hits :
    (evict_rounds thousandths 3 3 0 full_segment).active_lru ≡ stored_entry 2 1 (4 ∷ 5 ∷ []) ∷ []
unfolding evict_rounds over_budget evict_round back without_back requeue retire
kept_by_hits = refl

changes-IsSegment_example :
    IsSegment (segment_put thousandths true third full_segment).0
    × IsSegment (segment_remove (alternate 2) full_segment).0
    × IsSegment (segment_remove_all zero_key full_segment)
changes-IsSegment_example =
    changes-IsSegment thousandths true third (alternate 2) zero_key full_segment full-IsSegment

segment_put-PutOutcome_example :
    let r = segment_put thousandths true third full_segment in PutOutcome r.1 third full_segment r.0
segment_put-PutOutcome_example = segment_put-PutOutcome thousandths true third full_segment
