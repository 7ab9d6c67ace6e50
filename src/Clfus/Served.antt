-- ===== src/Clfus/Served.antt =====
-- src/ram_cache/clfus.cpp: what a get finds after a put.
use mathlib.Core.Option.{some-injective}
use cyclone_cache.Common.{
  ℕ, ◌≡◌, refl, ap, sym, ◌∙◌, inl, inr, List, [], ◌∷◌, Bool, true, false, ◌||◌, Option, none, some,
  ltb, Bool-cases, Option-cases, arith,
}
use cyclone_cache.Common.Words.{word_sub}
use cyclone_cache.RamCache.{RamCacheKey, same_key, saturating_increment}
use cyclone_cache.RamCache.Recency.{same_key_refl}
use cyclone_cache.Clfus.{
  Averages, ClfusEntry, Segment, data_size, find_in, erase_in, check_seen, mark_seen, make_room,
  segment_get,
}
use cyclone_cache.Clfus.Operations.{
  put_back, overwrite, promote_from_history, push_new, put_absent, segment_put,
}

found_key :
    (rk : RamCacheKey) (l : List ClfusEntry) (e : ClfusEntry)
    → find_in rk l ≡ some e
    → same_key rk e.key ≡ true
unfolding find_in
found_key rk [] e found = absurd (ground arith)
found_key rk (x ∷ l) e found = elim (Bool-cases (same_key rk x.key)) [
  | inl same ↦
      let here : find_in rk (x ∷ l) ≡ some x = rw same refl in
      let it : x ≡ e = some-injective x e (sym here ∙ found) in
      ap (λ (y : ClfusEntry). same_key rk y.key) (sym it) ∙ same
  | inr other ↦
      let past : find_in rk (x ∷ l) ≡ find_in rk l = rw other refl in
      found_key rk l e (sym past ∙ found)
]

abbrev Served : Option ClfusEntry → List ℕ → ℕ → Type 0
Served none bytes stamp = ⊥
Served (some e) bytes stamp = (e.bytes ≡ bytes) × (e.stamp ≡ stamp)

-- What a put that answers `stored` leaves: the data at the next get, or the active entries as they were.
abbrev pub PutOutcome :
    {Value : Type 0} → Bool → ClfusEntry → Segment Value → Segment Value → Type 0
PutOutcome true new before after = Served (segment_get new.key after).1 new.bytes new.stamp
PutOutcome false new before after = after.active_lru ≡ before.active_lru

front-Served :
    {Value : Type 0} (rk : RamCacheKey) (e : ClfusEntry) (l : List ClfusEntry) (s : Segment Value)
    → same_key rk e.key ≡ true
    → s.active_lru ≡ e ∷ l
    → Served (segment_get rk s).1 e.bytes e.stamp
unfolding find_in segment_get
front-Served rk e l s same front = rw (segment_get, front, same) (refl, refl)

put_back-Served :
    {Value : Type 0} (old new : ClfusEntry) (s : Segment Value)
    → same_key new.key old.key ≡ true
    → Served (segment_get new.key (put_back old new s)).1 new.bytes new.stamp
unfolding put_back
put_back-Served old new s same =
    front-Served new.key
      (record old { bytes = new.bytes; stamp = new.stamp; hits = saturating_increment old.hits })
      s.active_lru (put_back old new s) same refl

put_absent-PutOutcome :
    {Value : Type 0} (averages : Averages Value) (new : ClfusEntry) (s : Segment Value)
    → let r = put_absent averages new s in PutOutcome r.1 new s r.0
unfolding put_absent mark_seen push_new promote_from_history put_back
put_absent-PutOutcome averages new s = elim (Option-cases (find_in new.key s.history_lru)) [
  | inl absent ↦ elim (Bool-cases (check_seen new.key s)) [
    | inr unseen ↦ rw (put_absent, absent, unseen) refl
    | inl seen ↦
        rw (put_absent, absent, seen)
          (front-Served new.key (record new { hits = 0 })
            (make_room averages (data_size new) s).active_lru (push_new averages new s)
            (same_key_refl new.key) refl)
  ]
  | inr (old, found) ↦
      elim (Bool-cases
        (averages.above old.hits (data_size old) s.average_value || ltb 0 old.hits)) [
          | inl worth ↦
              rw (put_absent, found, worth)
                (put_back-Served old new
                  (make_room averages (data_size new)
                    (record s { history_lru = erase_in new.key s.history_lru }))
                  (found_key new.key s.history_lru old found))
          | inr not_yet ↦ rw (put_absent, found, not_yet) refl
        ]
]

-- After a put that stores, the next get of the key serves the bytes and the stamp of the put: for a
-- new key, an overwrite and a key that comes back from the history, whatever the put evicts. A put that does
-- not store leaves the active entries as they were.
pub segment_put-PutOutcome :
    {Value : Type 0} (averages : Averages Value) (predicate : Bool) (new : ClfusEntry)
    (s : Segment Value)
    → let r = segment_put averages predicate new s in PutOutcome r.1 new s r.0
unfolding segment_put overwrite
segment_put-PutOutcome averages predicate new s =
    elim (Bool-cases (ltb s.max_bytes (data_size new))) [
      | inl large ↦ rw (segment_put, large) refl
      | inr small ↦ elim (Bool-cases predicate) [
        | inr refused ↦ rw (segment_put, small, refused) refl
        | inl agreed ↦ elim (Option-cases (find_in new.key s.active_lru)) [
          | inl absent ↦
              rw (segment_put, small, agreed, absent) (put_absent-PutOutcome averages new s)
          | inr (old, found) ↦
              rw (segment_put, small, agreed, found)
                (put_back-Served old new
                  (make_room averages (data_size new) (record s {
                    bytes_used = word_sub s.bytes_used (data_size old);
                    active_lru = erase_in new.key s.active_lru;
                  }))
                  (found_key new.key s.active_lru old found))
        ]
      ]
    ]
