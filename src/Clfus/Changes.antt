-- ===== src/Clfus/Changes.antt =====
-- src/ram_cache/clfus.cpp: the operations of a segment as a whole.
use native.Mathlib.Nat.{zero-add}
use cyclone_cache.Common.{
  ◌≤◌, ◌≡◌, ap, sym, ◌∙◌, inl, inr, Bool, ◌||◌, ltb, Bool-cases, Option-cases, arith,
}
use cyclone_cache.Key.{CacheKey}
use cyclone_cache.RamCache.{RamCacheKey}
use cyclone_cache.Clfus.{Averages, ClfusEntry, Segment, data_size, find_in, check_seen, mark_seen}
use cyclone_cache.Clfus.Operations.{
  put_absent, segment_put, segment_remove, segment_remove_all, others_in, used_by_others,
}
use cyclone_cache.Clfus.Budget.{total, total-erase_in, length-erase_in, hit_in_lem}
use cyclone_cache.Clfus.Stored.{
  IsSegment, found_total, others_in_lem, used_by_others_lem, overwrite-IsSegment, promote-IsSegment,
  push_new-IsSegment,
}

put_absent-IsSegment :
    {Value : Type 0} (averages : Averages Value) (new : ClfusEntry) (s : Segment Value)
    → IsSegment s
    → data_size new ≤ s.max_bytes
    → IsSegment (put_absent averages new s).0
unfolding put_absent mark_seen
put_absent-IsSegment averages new s h small = elim (Option-cases (find_in new.key s.history_lru)) [
  | inl absent ↦ elim (Bool-cases (check_seen new.key s)) [
    | inr unseen ↦
        rw (put_absent, absent, unseen)
          (record {
            counted = record {
              used = h.counted.used;
              bounded = h.counted.bounded;
              no_data = h.counted.no_data;
            };
            budget = h.budget;
            room = h.room;
          })
    | inl seen ↦ rw (put_absent, absent, seen) (push_new-IsSegment averages new s h small)
  ]
  | inr (old, found) ↦
      elim (Bool-cases
        (averages.above old.hits (data_size old) s.average_value || ltb 0 old.hits)) [
          | inl worth ↦ rw (put_absent, found, worth) (promote-IsSegment averages old new s h small)
          | inr not_yet ↦
              let (size, count) = hit_in_lem new.key s.history_lru in
              rw (put_absent, found, not_yet)
                (record {
                  counted = record {
                    used = h.counted.used;
                    bounded = omega (arith, count, h.counted.bounded);
                    no_data = omega (arith, size, h.counted.no_data);
                  };
                  budget = h.budget;
                  room = h.room;
                })
        ]
]

segment_put-IsSegment :
    {Value : Type 0} (averages : Averages Value) (predicate : Bool) (new : ClfusEntry)
    (s : Segment Value)
    → IsSegment s
    → IsSegment (segment_put averages predicate new s).0
unfolding segment_put
segment_put-IsSegment averages predicate new s h =
    elim (Bool-cases (ltb s.max_bytes (data_size new))) [
      | inl large ↦ rw (segment_put, large) h
      | inr small ↦ elim (Bool-cases predicate) [
        | inr refused ↦ rw (segment_put, small, refused) h
        | inl agreed ↦
            let room : data_size new ≤ s.max_bytes = ground arith in
            elim (Option-cases (find_in new.key s.active_lru)) [
              | inl absent ↦
                  rw (segment_put, small, agreed, absent)
                    (put_absent-IsSegment averages new s h room)
              | inr (old, found) ↦
                  rw (segment_put, small, agreed, found)
                    (overwrite-IsSegment averages old new s h room found)
            ]
      ]
    ]

segment_remove-IsSegment :
    {Value : Type 0} (rk : RamCacheKey) (s : Segment Value)
    → IsSegment s
    → IsSegment (segment_remove rk s).0
unfolding segment_remove
segment_remove-IsSegment rk s h = elim (Option-cases (find_in rk s.active_lru)) [
  | inr (e, found) ↦
      let size = found_total rk s.active_lru e found in
      rw (segment_remove, found)
        (record {
          counted = record {
            used = omega (arith, size, h.counted.used, h.budget, h.room);
            bounded = h.counted.bounded;
            no_data = h.counted.no_data;
          };
          budget = omega (arith, size, h.counted.used, h.budget, h.room);
          room = h.room;
        })
  | inl absent ↦ elim (Option-cases (find_in rk s.history_lru)) [
    | inl unknown ↦ rw (segment_remove, absent, unknown) h
    | inr (e, found) ↦
        rw (segment_remove, absent, found)
          (record {
            counted = record {
              used = h.counted.used;
              bounded = omega (arith, length-erase_in rk s.history_lru, h.counted.bounded);
              no_data = omega (arith, total-erase_in rk s.history_lru, h.counted.no_data);
            };
            budget = h.budget;
            room = h.room;
          })
  ]
]

segment_remove_all-IsSegment :
    {Value : Type 0} (key : CacheKey) (s : Segment Value)
    → IsSegment s
    → IsSegment (segment_remove_all key s)
unfolding segment_remove_all
segment_remove_all-IsSegment key s h =
    let used : used_by_others key s.active_lru s.bytes_used ≡ total (others_in key s.active_lru) =
      ap (used_by_others key s.active_lru) (h.counted.used ∙ sym (zero-add (total s.active_lru)))
      ∙ used_by_others_lem key s.active_lru 0 (omega (arith, h.counted.used, h.budget, h.room))
      ∙ zero-add (total (others_in key s.active_lru)) in
    let (smaller, fewer) = others_in_lem key s.active_lru in
    let (no_more, no_longer) = others_in_lem key s.history_lru in
    record {
      counted = record {
        used = used;
        bounded = omega (arith, no_longer, h.counted.bounded);
        no_data = omega (arith, no_more, h.counted.no_data);
      };
      budget = omega (arith, used, smaller, h.counted.used, h.budget);
      room = h.room;
    }

-- A put on every path, whatever the evictions that it makes requeue or retire, the removal of one alternate
-- and the removal of every alternate of a key keep the bytes in use equal to the data of the active
-- entries and within the budget, the history at most 1024 entries, and the history without data. The
-- budget is below 2 ^ 63 bytes.
pub changes-IsSegment :
    {Value : Type 0} (averages : Averages Value) (predicate : Bool) (new : ClfusEntry)
    (rk : RamCacheKey) (key : CacheKey) (s : Segment Value)
    → IsSegment s
    → IsSegment (segment_put averages predicate new s).0
      × IsSegment (segment_remove rk s).0
      × IsSegment (segment_remove_all key s)
changes-IsSegment averages predicate new rk key s h = (
  segment_put-IsSegment averages predicate new s h,
  segment_remove-IsSegment rk s h,
  segment_remove_all-IsSegment key s h,
)
