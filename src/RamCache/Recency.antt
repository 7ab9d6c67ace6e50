-- ===== src/RamCache/Recency.antt =====
-- src/ram_cache/lru.cpp: the order of the entries, and what `get` finds.
use mathlib.Core.Option.{some-injective}
use cyclone_cache.Common.{
  ℕ, zero, suc, ◌+◌, ◌^◌, ◌<◌, ◌≤◌, ◌≡◌, refl, ap, ◌∙◌, inl, inr, List, [], ◌∷◌, Bool, true, false,
  Option, none, some, ltb, Bool-cases, Option-cases, arith,
}
use cyclone_cache.Key.{same_bytes}
use cyclone_cache.Common.Words.{word_sub}
use cyclone_cache.RamCache.{
  RamCacheKey, Entry, RamCacheLru, entry_size, find_entry, erase_entry, same_key, get, get_lookup,
  without_last, last_size, evict_last, needs_room, evict_loop, evict_if_needed, push_entry,
  replace_entry, put_if,
}
use cyclone_cache.RamCache.Budget.{
  IsCache, total, total-without_last, total-erase_entry, found_size,
}

same_bytes_refl : (bs : List ℕ) → same_bytes bs bs ≡ true
unfolding same_bytes
same_bytes_refl [] = refl
same_bytes_refl (b ∷ bs) = ground (arith, same_bytes_refl bs)

pub same_key_refl : (rk : RamCacheKey) → same_key rk rk ≡ true
unfolding same_key
same_key_refl rk = ground (arith, same_bytes_refl rk.cache_key.hash)

abbrev front : List Entry → Option Entry
front [] = none
front (e ∷ es) = some e

front-find_entry : (e : Entry) (l : List Entry) → front l ≡ some e → find_entry e.key l ≡ some e
unfolding find_entry
front-find_entry e [] h = ground arith
front-find_entry e (x ∷ l) h =
    let same : x ≡ e = some-injective x e h in
    let test : same_key e.key x.key ≡ true =
      ap (λ (y : Entry). same_key e.key y.key) same ∙ same_key_refl e.key in
    rw test h

get-front :
    (locked : Bool) (e : Entry) (c : RamCacheLru)
    → front c.lru ≡ some e
    → (get locked e.key c).1 ≡ some e
unfolding get get_lookup
get-front true e c h = rw (get, get_lookup, front-find_entry e c.lru h) refl
get-front false e c h = rw (get, get_lookup, front-find_entry e c.lru h) refl

-- Evicting from the back does not reach an entry in front that fits the budget alone.
alone :
    (e : Entry) (c : RamCacheLru)
    → c.bytes_used ≡ entry_size e + 0
    → entry_size e ≤ c.max_bytes
    → c.bytes_used < 2 ^ 64
    → needs_room 0 c ≡ false
unfolding needs_room
alone e c used small fits = ground arith

evict_loop-front :
    (n : ℕ) (e : Entry) (es : List Entry) (c : RamCacheLru)
    → c.lru ≡ e ∷ es
    → c.bytes_used ≡ total (e ∷ es)
    → entry_size e ≤ c.max_bytes
    → c.bytes_used < 2 ^ 64
    → front (evict_loop n 0 c).lru ≡ some e
unfolding evict_loop evict_last without_last last_size
evict_loop-front zero e es c l used small fits = ap front l
evict_loop-front (suc n) e [] c l used small fits = rw (alone e c used small fits) (ap front l)
evict_loop-front (suc n) e (f ∷ es) c l used small fits =
    let last = total-without_last (f ∷ es) in
    let size : last_size c.lru ≡ last_size (f ∷ es) = ap last_size l in
    let left : word_sub c.bytes_used (last_size c.lru) ≡ total (e ∷ without_last (f ∷ es)) =
      rw size (omega (arith, last)) in
    elim (Bool-cases (needs_room 0 c)) [
      | inr enough ↦ rw enough (ap front l)
      | inl over ↦ rw over (
          evict_loop-front n e (without_last (f ∷ es)) (evict_last c) (ap without_last l) left small
            (omega arith))
    ]

pushed :
    (e : Entry) (c : RamCacheLru)
    → front (push_entry e (evict_if_needed (entry_size e) c)).lru ≡ some e
unfolding push_entry
pushed e c = refl

replaced :
    (old e : Entry) (c : RamCacheLru)
    → IsCache c
    → entry_size e ≤ c.max_bytes
    → find_entry e.key c.lru ≡ some old
    → front (evict_if_needed 0 (replace_entry old e c)).lru ≡ some e
unfolding replace_entry evict_if_needed
replaced old e c h small found =
    let size : total c.lru ≡ entry_size old + total (erase_entry e.key c.lru) =
      total-erase_entry e.key c.lru
      ∙ ap (λ (o : Option Entry). found_size o + total (erase_entry e.key c.lru)) found in
    evict_loop-front _ e (erase_entry e.key c.lru) (replace_entry old e c) refl
      (omega (arith, size, h.used, h.budget, h.room, small)) small
      (omega (arith, size, h.used, h.budget, h.room, small))

-- An entry that was stored is in front, and the next `get` of its key finds it, whatever was evicted
-- to make room: the caller agreed, the entry fits the budget, the bytes in use are exact and within
-- the budget, and the budget is below 2 ^ 63.
pub get-put_if :
    (locked : Bool) (e : Entry) (c : RamCacheLru)
    → IsCache c
    → entry_size e ≤ c.max_bytes
    → ((put_if true e c).1 ≡ true) × ((get locked e.key (put_if true e c).0).1 ≡ some e)
unfolding put_if
get-put_if locked e c h small =
    let fits : ltb c.max_bytes (entry_size e) ≡ false = ground arith in
    elim (Option-cases (find_entry e.key c.lru)) [
      | inl new ↦ rw (fits, new) (refl, get-front locked e _ (pushed e c))
      | inr (old, found) ↦
          rw (fits, found) (refl, get-front locked e _ (replaced old e c h small found))
    ]
