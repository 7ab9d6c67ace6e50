-- ===== src/RamCache/Budget.antt =====
-- src/ram_cache/lru.cpp: the bytes in use and the budget.
use native.Mathlib.Nat.{zero-add}
use cyclone_cache.Common.{
  ℕ, zero, suc, ◌+◌, ◌-◌, ◌^◌, ◌<◌, ◌≤◌, ◌≡◌, refl, ap, sym, ◌∙◌, inl, inr, List, [], ◌∷◌, Bool,
  true, false, Option, none, some, length, ltb, Bool-cases, Option-cases, arith,
}
use cyclone_cache.Key.{CacheKey, same_bytes}
use cyclone_cache.Common.Words.{word_sub}
use cyclone_cache.RamCache.{
  RamCacheKey, Entry, RamCacheLru, entry_size, find_entry, erase_entry, same_key, without_last,
  last_size, is_nil, evict_last, needs_room, evict_loop, evict_if_needed, push_entry, replace_entry,
  put_if, remove_entry, without_key, used_without, remove_all,
}

abbrev pub total : List Entry → ℕ
total [] = 0
total (e ∷ es) = entry_size e + total es

-- The invariant. A budget below 2 ^ 63 leaves room for the new entry beside the old ones.
pub record IsCache (c : RamCacheLru) : Type 0 where
  pub used : c.bytes_used ≡ total c.lru
  pub budget : c.bytes_used ≤ c.max_bytes
  pub room : c.max_bytes < 2 ^ 63

pub total-without_last : (l : List Entry) → total l ≡ total (without_last l) + last_size l
unfolding without_last last_size
total-without_last [] = refl
total-without_last (e ∷ []) = omega arith
total-without_last (e ∷ f ∷ l) = omega (arith, total-without_last (f ∷ l))

pub length-without_last : (l : List Entry) → length (without_last l) ≡ length l - 1
unfolding without_last
length-without_last [] = omega arith
length-without_last (e ∷ []) = omega arith
length-without_last (e ∷ f ∷ l) = omega (arith, length-without_last (f ∷ l))

abbrev pub found_size : Option Entry → ℕ
found_size none = 0
found_size (some e) = entry_size e

pub total-erase_entry :
    (rk : RamCacheKey) (l : List Entry)
    → total l ≡ found_size (find_entry rk l) + total (erase_entry rk l)
unfolding find_entry erase_entry
total-erase_entry rk [] = omega arith
total-erase_entry rk (x ∷ l) = elim (Bool-cases (same_key rk x.key)) [
  | inl same ↦ rw same refl
  | inr other ↦ rw other (omega (arith, total-erase_entry rk l))
]

total_nil : (l : List Entry) → length l ≤ 0 → total l ≡ 0
total_nil [] h = refl
total_nil (e ∷ l) h = absurd (omega arith)

nil_total : (l : List Entry) → is_nil l ≡ true → total l ≡ 0
nil_total [] h = refl
nil_total (e ∷ l) h = ground arith

needs_room_enough :
    (required : ℕ) (c : RamCacheLru)
    → c.bytes_used ≡ total c.lru
    → required ≤ c.max_bytes
    → c.bytes_used + required < 2 ^ 64
    → needs_room required c ≡ false
    → c.bytes_used + required ≤ c.max_bytes
unfolding needs_room
needs_room_enough required c used small fits enough = elim (Bool-cases (is_nil c.lru)) [
  | inl nil ↦ omega (arith, nil_total c.lru nil)
  | inr full ↦ ground arith
]

-- Enough room: the loop ends with the entries accounted for and what is required beside them.
pub evict_loop_lem :
    (n required : ℕ) (c : RamCacheLru)
    → length c.lru ≤ n
    → c.bytes_used ≡ total c.lru
    → required ≤ c.max_bytes
    → c.bytes_used + required < 2 ^ 64
    → ((evict_loop n required c).bytes_used ≡ total (evict_loop n required c).lru)
      × ((evict_loop n required c).bytes_used + required ≤ c.max_bytes)
      × ((evict_loop n required c).max_bytes ≡ c.max_bytes)
unfolding evict_loop needs_room evict_last
evict_loop_lem zero required c short used small fits =
    (used, omega (arith, total_nil c.lru short), refl)
evict_loop_lem (suc n) required c short used small fits =
    let last = total-without_last c.lru in
    let left : word_sub c.bytes_used (last_size c.lru) ≡ total (without_last c.lru) =
      omega (arith, last) in
    elim (Bool-cases (needs_room required c)) [
      | inl over ↦ rw over (
          evict_loop_lem n required (evict_last c) (omega (arith, length-without_last c.lru)) left
            small (omega (arith, left, last)))
      | inr enough ↦ rw enough (used, needs_room_enough required c used small fits enough, refl)
    ]

total-without_key : (key : CacheKey) (l : List Entry) → total (without_key key l) ≤ total l
unfolding without_key
total-without_key key [] = omega arith
total-without_key key (e ∷ es) = elim (Bool-cases (same_bytes e.key.cache_key.hash key.hash)) [
  | inl same ↦ rw same (omega (arith, total-without_key key es))
  | inr other ↦ rw other (omega (arith, total-without_key key es))
]

-- The loop of `remove_all` subtracts what it drops; `rest` is what the other entries use.
used_without_lem :
    (key : CacheKey) (l : List Entry) (rest : ℕ)
    → rest + total l < 2 ^ 64
    → used_without key l (rest + total l) ≡ rest + total (without_key key l)
unfolding used_without without_key
used_without_lem key [] rest h = refl
used_without_lem key (e ∷ es) rest h =
    let left : word_sub (rest + (entry_size e + total es)) (entry_size e) ≡ rest + total es =
      omega arith in
    let kept : rest + (entry_size e + total es) ≡ rest + entry_size e + total es = omega arith in
    elim (Bool-cases (same_bytes e.key.cache_key.hash key.hash)) [
      | inl same ↦ rw (same, left) (used_without_lem key es rest (omega arith))
      | inr other ↦
          rw (other, kept)
            (used_without_lem key es (rest + entry_size e) (omega arith) ∙ omega arith)
    ]

evict_if_needed_lem :
    (required : ℕ) (c : RamCacheLru)
    → c.bytes_used ≡ total c.lru
    → required ≤ c.max_bytes
    → c.bytes_used + required < 2 ^ 64
    → ((evict_if_needed required c).bytes_used ≡ total (evict_if_needed required c).lru)
      × ((evict_if_needed required c).bytes_used + required ≤ c.max_bytes)
      × ((evict_if_needed required c).max_bytes ≡ c.max_bytes)
unfolding evict_if_needed
evict_if_needed_lem required c used small fits =
    evict_loop_lem (length c.lru) required c (omega arith) used small fits

push-IsCache :
    (e : Entry) (c : RamCacheLru)
    → IsCache c
    → entry_size e ≤ c.max_bytes
    → IsCache (push_entry e (evict_if_needed (entry_size e) c))
unfolding push_entry
push-IsCache e c h small =
    let (used, budget, max) =
      evict_if_needed_lem (entry_size e) c h.used small (omega (arith, h.budget, h.room)) in
    record {
      used = omega (arith, used, budget, max, h.room);
      budget = omega (arith, used, budget, max, h.room);
      room = omega (arith, max, h.room);
    }

replace-IsCache :
    (old e : Entry) (c : RamCacheLru)
    → IsCache c
    → entry_size e ≤ c.max_bytes
    → find_entry e.key c.lru ≡ some old
    → IsCache (evict_if_needed 0 (replace_entry old e c))
unfolding replace_entry
replace-IsCache old e c h small found =
    let size : total c.lru ≡ entry_size old + total (erase_entry e.key c.lru) =
      total-erase_entry e.key c.lru
      ∙ ap (λ (o : Option Entry). found_size o + total (erase_entry e.key c.lru)) found in
    let (used, budget, max) =
      evict_if_needed_lem 0 (replace_entry old e c)
        (omega (arith, size, h.used, h.budget, h.room, small)) (omega arith)
        (omega (arith, size, h.used, h.budget, h.room, small)) in
    record { used = used; budget = omega (arith, budget, max); room = omega (arith, max, h.room) }

-- Storing an entry keeps the bytes in use exact and within the budget on every path: an entry larger
-- than the budget, a caller's refusal, a new value for a key that is there, and a new key, with the
-- evictions that make room. The budget is below 2 ^ 63 bytes.
pub put_if-IsCache :
    (predicate : Bool) (e : Entry) (c : RamCacheLru) → IsCache c → IsCache (put_if predicate e c).0
unfolding put_if
put_if-IsCache predicate e c h = elim (Bool-cases (ltb c.max_bytes (entry_size e))) [
  | inl large ↦ rw large h
  | inr small ↦ elim (Bool-cases predicate) [
    | inr refused ↦ rw (small, refused) h
    | inl agreed ↦
        let room : entry_size e ≤ c.max_bytes = ground arith in
        elim (Option-cases (find_entry e.key c.lru)) [
          | inl new ↦ rw (small, agreed, new) (push-IsCache e c h room)
          | inr (old, found) ↦ rw (small, agreed, found) (replace-IsCache old e c h room found)
        ]
  ]
]

-- Removing one alternate, or every alternate of a key, keeps the bytes in use exact and within the
-- budget.
pub removals-IsCache :
    (rk : RamCacheKey) (key : CacheKey) (c : RamCacheLru)
    → IsCache c
    → IsCache (remove_entry rk c).0 × IsCache (remove_all key c)
unfolding remove_entry remove_all
removals-IsCache rk key c h = (
  elim (Option-cases (find_entry rk c.lru)) [
    | inl absent ↦ rw (remove_entry, absent) h
    | inr (e, found) ↦
        let size : total c.lru ≡ entry_size e + total (erase_entry rk c.lru) =
          total-erase_entry rk c.lru
          ∙ ap (λ (o : Option Entry). found_size o + total (erase_entry rk c.lru)) found in
        rw (remove_entry, found)
          (record {
            used = omega (arith, size, h.used, h.budget, h.room);
            budget = omega (arith, size, h.used, h.budget, h.room);
            room = h.room;
          })
  ],
  let used : used_without key c.lru c.bytes_used ≡ total (without_key key c.lru) =
        ap (used_without key c.lru) (h.used ∙ sym (zero-add (total c.lru)))
        ∙ used_without_lem key c.lru 0 (omega (arith, h.used, h.budget, h.room))
        ∙ zero-add (total (without_key key c.lru)) in
      record {
        used = used;
        budget = omega (arith, used, total-without_key key c.lru, h.used, h.budget);
        room = h.room;
      },
)
