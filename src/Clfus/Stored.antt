-- ===== src/Clfus/Stored.antt =====
-- src/ram_cache/clfus.cpp: the operations of a segment, with the evictions that they make.
use cyclone_cache.Common.{
  ℕ, ◌+◌, ◌^◌, ◌<◌, ◌≤◌, ◌≡◌, refl, ap, ◌∙◌, inl, inr, List, [], ◌∷◌, Option, some, length,
  Bool-cases, arith,
}
use cyclone_cache.Common.Words.{word_sub}
use cyclone_cache.Key.{CacheKey, same_bytes}
use cyclone_cache.RamCache.{RamCacheKey}
use cyclone_cache.Clfus.{Averages, ClfusEntry, Segment, data_size, find_in, erase_in, make_room}
use cyclone_cache.Clfus.Operations.{
  put_back, overwrite, promote_from_history, push_new, others_in, used_by_others,
}
use cyclone_cache.Clfus.Budget.{IsCounted, total, found_size, total-erase_in, length-erase_in}
use cyclone_cache.Clfus.Rounds.{make_room_lem}

-- The invariant. A budget below 2 ^ 63 leaves room for the new data beside the old.
pub record IsSegment {Value : Type 0} (s : Segment Value) : Type 0 where
  pub counted : IsCounted s
  pub budget : s.bytes_used ≤ s.max_bytes
  pub room : s.max_bytes < 2 ^ 63

pub found_total :
    (rk : RamCacheKey) (l : List ClfusEntry) (e : ClfusEntry)
    → find_in rk l ≡ some e
    → total l ≡ data_size e + total (erase_in rk l)
found_total rk l e found =
    total-erase_in rk l ∙ ap (λ (o : Option ClfusEntry). found_size o + total (erase_in rk l)) found

pub others_in_lem :
    (key : CacheKey) (l : List ClfusEntry)
    → (total (others_in key l) ≤ total l) × (length (others_in key l) ≤ length l)
unfolding others_in
others_in_lem key [] = (omega arith, omega arith)
others_in_lem key (e ∷ es) =
    let (size, count) = others_in_lem key es in
    elim (Bool-cases (same_bytes e.key.cache_key.hash key.hash)) [
      | inl same ↦ rw same (omega (arith, size), omega (arith, count))
      | inr other ↦ rw other (omega (arith, size), omega (arith, count))
    ]

-- The loop of `remove_all` subtracts what it drops; `rest` is what the other entries use.
pub used_by_others_lem :
    (key : CacheKey) (l : List ClfusEntry) (rest : ℕ)
    → rest + total l < 2 ^ 64
    → used_by_others key l (rest + total l) ≡ rest + total (others_in key l)
unfolding used_by_others others_in
used_by_others_lem key [] rest h = refl
used_by_others_lem key (e ∷ es) rest h =
    let left : word_sub (rest + (data_size e + total es)) (data_size e) ≡ rest + total es =
      omega arith in
    let kept : rest + (data_size e + total es) ≡ rest + data_size e + total es = omega arith in
    elim (Bool-cases (same_bytes e.key.cache_key.hash key.hash)) [
      | inl same ↦ rw (same, left) (used_by_others_lem key es rest (omega arith))
      | inr other ↦
          rw (other, kept)
            (used_by_others_lem key es (rest + data_size e) (omega arith) ∙ omega arith)
    ]

module _ {Value : Type 0} (averages : Averages Value) where
  put_back-IsSegment :
      (old new : ClfusEntry) (s : Segment Value)
      → IsCounted s
      → data_size new ≤ s.max_bytes
      → s.bytes_used ≤ s.max_bytes
      → s.max_bytes < 2 ^ 63
      → IsSegment (put_back old new (make_room averages (data_size new) s))
  unfolding put_back
  put_back-IsSegment old new s h small budget room =
      let (made, fits, max) =
        make_room_lem averages (data_size new) s h small (omega (arith, budget, room)) in
      record {
        counted = record {
          used = omega (arith, made.used, fits, max, room);
          bounded = made.bounded;
          no_data = made.no_data;
        };
        budget = omega (arith, fits, max, room);
        room = omega (arith, max, room);
      }

  pub overwrite-IsSegment :
      (old new : ClfusEntry) (s : Segment Value)
      → IsSegment s
      → data_size new ≤ s.max_bytes
      → find_in new.key s.active_lru ≡ some old
      → IsSegment (overwrite averages old new s)
  unfolding overwrite
  overwrite-IsSegment old new s h small found =
      let size = found_total new.key s.active_lru old found in
      let off = record s {
        bytes_used = word_sub s.bytes_used (data_size old);
        active_lru = erase_in new.key s.active_lru;
      } in
      put_back-IsSegment old new off
        (record {
          used = omega (arith, size, h.counted.used, h.budget, h.room);
          bounded = h.counted.bounded;
          no_data = h.counted.no_data;
        })
        small (omega (arith, size, h.counted.used, h.budget, h.room)) h.room

  pub promote-IsSegment :
      (old new : ClfusEntry) (s : Segment Value)
      → IsSegment s
      → data_size new ≤ s.max_bytes
      → IsSegment (promote_from_history averages old new s)
  unfolding promote_from_history
  promote-IsSegment old new s h small =
      put_back-IsSegment old new (record s { history_lru = erase_in new.key s.history_lru })
        (record {
          used = h.counted.used;
          bounded = omega (arith, length-erase_in new.key s.history_lru, h.counted.bounded);
          no_data = omega (arith, total-erase_in new.key s.history_lru, h.counted.no_data);
        })
        small h.budget h.room

  pub push_new-IsSegment :
      (new : ClfusEntry) (s : Segment Value)
      → IsSegment s
      → data_size new ≤ s.max_bytes
      → IsSegment (push_new averages new s)
  unfolding push_new
  push_new-IsSegment new s h small =
      let (made, fits, max) =
        make_room_lem averages (data_size new) s h.counted small
          (omega (arith, h.budget, h.room)) in
      record {
        counted = record {
          used = omega (arith, made.used, fits, max, h.room);
          bounded = made.bounded;
          no_data = made.no_data;
        };
        budget = omega (arith, fits, max, h.room);
        room = omega (arith, max, h.room);
      }
