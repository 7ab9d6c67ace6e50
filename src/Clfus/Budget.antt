-- ===== src/Clfus/Budget.antt =====
-- src/ram_cache/clfus.cpp: the bytes in use, the budget and the bound of the history.
use cyclone_cache.Common.{
  ℕ, zero, suc, ◌+◌, ◌-◌, ◌≤◌, ◌≡◌, refl, inl, inr, List, [], ◌∷◌, true, Option, none, some, length,
  ltb, Bool-cases, arith,
}
use cyclone_cache.RamCache.{RamCacheKey, same_key}
use cyclone_cache.Clfus.{
  ClfusEntry, Segment, data_size, find_in, erase_in, hit_in, back, without_back, max_history,
  trim_history, is_empty,
}

abbrev pub total : List ClfusEntry → ℕ
total [] = 0
total (e ∷ es) = data_size e + total es

abbrev pub found_size : Option ClfusEntry → ℕ
found_size none = 0
found_size (some e) = data_size e

-- The bytes in use are those of the active entries; the history is bounded and holds no data.
pub record IsCounted {Value : Type 0} (s : Segment Value) : Type 0 where
  pub used : s.bytes_used ≡ total s.active_lru
  pub bounded : length s.history_lru ≤ max_history
  pub no_data : total s.history_lru ≡ 0

pub total-without_back :
    (l : List ClfusEntry) → total l ≡ total (without_back l) + found_size (back l)
unfolding without_back back
total-without_back [] = refl
total-without_back (e ∷ []) = omega arith
total-without_back (e ∷ f ∷ l) = omega (arith, total-without_back (f ∷ l))

pub length-without_back : (l : List ClfusEntry) → length (without_back l) ≡ length l - 1
unfolding without_back
length-without_back [] = omega arith
length-without_back (e ∷ []) = omega arith
length-without_back (e ∷ f ∷ l) = omega (arith, length-without_back (f ∷ l))

pub back-none : (l : List ClfusEntry) → back l ≡ none → is_empty l ≡ true
unfolding back
back-none [] h = refl
back-none (e ∷ []) h = ground arith
back-none (e ∷ f ∷ l) h = absurd (ground (arith, back-none (f ∷ l) h))

pub empty_total : (l : List ClfusEntry) → is_empty l ≡ true → total l ≡ 0
empty_total [] h = refl
empty_total (e ∷ l) h = ground arith

pub length_zero : (l : List ClfusEntry) → length l ≤ 0 → is_empty l ≡ true
length_zero [] h = refl
length_zero (e ∷ l) h = absurd (omega arith)

pub total-erase_in :
    (rk : RamCacheKey) (l : List ClfusEntry)
    → total l ≡ found_size (find_in rk l) + total (erase_in rk l)
unfolding find_in erase_in
total-erase_in rk [] = omega arith
total-erase_in rk (x ∷ l) = elim (Bool-cases (same_key rk x.key)) [
  | inl same ↦ rw same refl
  | inr other ↦ rw other (omega (arith, total-erase_in rk l))
]

pub length-erase_in : (rk : RamCacheKey) (l : List ClfusEntry) → length (erase_in rk l) ≤ length l
unfolding erase_in
length-erase_in rk [] = omega arith
length-erase_in rk (x ∷ l) = elim (Bool-cases (same_key rk x.key)) [
  | inl same ↦ rw same (omega arith)
  | inr other ↦ rw other (omega (arith, length-erase_in rk l))
]

pub hit_in_lem :
    (rk : RamCacheKey) (l : List ClfusEntry)
    → (total (hit_in rk l) ≡ total l) × (length (hit_in rk l) ≡ length l)
unfolding hit_in
hit_in_lem rk [] = (refl, refl)
hit_in_lem rk (x ∷ l) =
    let (size, count) = hit_in_lem rk l in
    elim (Bool-cases (same_key rk x.key)) [
      | inl same ↦ rw same (refl, refl)
      | inr other ↦ rw other (omega (arith, size), omega (arith, count))
    ]

pub trim_history_lem :
    (n : ℕ) (l : List ClfusEntry)
    → length l ≤ n
    → total l ≡ 0
    → (length (trim_history n l) ≤ max_history) × (total (trim_history n l) ≡ 0)
unfolding trim_history
trim_history_lem zero l short none_left = (omega arith, none_left)
trim_history_lem (suc n) l short none_left = elim (Bool-cases (ltb max_history (length l))) [
  | inl long ↦ rw long (
      trim_history_lem n (without_back l) (omega (arith, length-without_back l))
        (omega (arith, total-without_back l)))
  | inr fits ↦ rw fits (ground arith, none_left)
]
