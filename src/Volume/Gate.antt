-- ===== src/Volume/Gate.antt =====
-- src/core/volume.cpp: the gate of a wrap or an advance, and the borrows that it counts.
use cyclone_cache.Common.{
  ℕ, zero, suc, ◌+◌, ◌-◌, ◌*◌, ◌^◌, ◌<◌, ◌≤◌, ◌≡◌, ◌≢◌, ◌⊎◌, refl, min, inl, inr, Bool, true, false,
  not, ◌||◌, List, [], ◌∷◌, length, get_or, leb, ◌==◌, Bool-cases, if-both, arith,
}
use cyclone_cache.Common.Words.{word_add}
use cyclone_cache.BorrowSlot.{count_of}
use cyclone_cache.BorrowSlot.Counting.{count_of-lt}
use cyclone_cache.Volume.{Stripe, VolumeConfig}
use cyclone_cache.Volume.Lease.{
  row_borrows, borrows_between, lease_gate, lease_active, past_ceiling, open_episode,
  set_wrap_intent, publish_wrap_deferred_deadline,
}
use cyclone_cache.Volume.Frontier.{core}
use cyclone_cache.Volume.Steps.{lease_gate-core}
use cyclone_cache.Volume.Reserve.{advance_frontier}

count_of_zero : count_of 0 ≡ 0
unfolding count_of
count_of_zero = refl

-- The counts of a row add up without overflow.
row_borrows-bounds :
    (row : List ℕ) (c n counted : ℕ)
    → counted + n * 2 ^ 24 < 2 ^ 64
    → (counted ≤ row_borrows row c n counted) × (row_borrows row c n counted ≤ counted + n * 2 ^ 24)
unfolding row_borrows
row_borrows-bounds row c zero counted room = (omega arith, omega arith)
row_borrows-bounds row c (suc n) counted room =
    let one = count_of-lt (get_or row c 0) in
    let sum : word_add counted (count_of (get_or row c 0)) ≡ counted + count_of (get_or row c 0) =
      omega (arith, one) in
    let rest =
      row_borrows-bounds row (suc c) n (counted + count_of (get_or row c 0)) (omega (arith, one)) in
    rw sum (omega (arith, rest.0), omega (arith, rest.1, one))

row_borrows-counts :
    (row : List ℕ) (c n k counted : ℕ)
    → counted + n * 2 ^ 24 < 2 ^ 64
    → c ≤ k
    → k < c + n
    → counted + count_of (get_or row k 0) ≤ row_borrows row c n counted
unfolding row_borrows
row_borrows-counts row c zero k counted room low high = absurd (omega arith)
row_borrows-counts row c (suc n) k counted room low high =
    let one = count_of-lt (get_or row c 0) in
    let sum : word_add counted (count_of (get_or row c 0)) ≡ counted + count_of (get_or row c 0) =
      omega (arith, one) in
    let next = counted + count_of (get_or row c 0) in
    rw sum (elim (Bool-cases (c == k)) [
      | inl here ↦
          let same : k ≡ c = ground arith in
          rw same (row_borrows-bounds row (suc c) n next (omega (arith, one))).0
      | inr there ↦ omega (
        arith,
        row_borrows-counts row (suc c) n k next (omega (arith, one)) (ground arith) (omega arith),
      )
    ])

borrows_between-bounds :
    (rows : List (List ℕ)) (lo hi counted : ℕ)
    → hi ≤ 64
    → counted + length rows * 2 ^ 30 < 2 ^ 64
    → counted ≤ borrows_between rows lo hi counted
unfolding borrows_between
borrows_between-bounds [] lo hi counted limit room = omega arith
borrows_between-bounds (row ∷ rows) lo hi counted limit room =
    let bounds = row_borrows-bounds row lo (hi - lo) counted (omega arith) in
    omega (
      arith,
      bounds.0,
      borrows_between-bounds rows lo hi (row_borrows row lo (hi - lo) counted) limit
          (omega (arith, bounds.1)),
    )

-- A borrow in one of the chunks is counted.
pub borrows_between-counts :
    (rows : List (List ℕ)) (lo hi counted shard chunk : ℕ)
    → hi ≤ 64
    → counted + length rows * 2 ^ 30 < 2 ^ 64
    → lo ≤ chunk
    → chunk < hi
    → counted + count_of (get_or (get_or rows shard []) chunk 0)
      ≤ borrows_between rows lo hi counted
unfolding borrows_between
borrows_between-counts [] lo hi counted shard chunk limit room low high =
    omega (arith, count_of_zero)
borrows_between-counts (row ∷ rows) lo hi counted zero chunk limit room low high =
    let bounds = row_borrows-bounds row lo (hi - lo) counted (omega arith) in
    let here = row_borrows-counts row lo (hi - lo) chunk counted (omega arith) low (omega arith) in
    omega (
      arith,
      here,
      borrows_between-bounds rows lo hi (row_borrows row lo (hi - lo) counted) limit
          (omega (arith, bounds.1)),
    )
borrows_between-counts (row ∷ rows) lo hi counted (suc shard) chunk limit room low high =
    let bounds = row_borrows-bounds row lo (hi - lo) counted (omega arith) in
    omega (
      arith,
      bounds.0,
      borrows_between-counts rows lo hi (row_borrows row lo (hi - lo) counted) shard chunk limit
          (omega (arith, bounds.1)) low high,
    )

open_episode-shards :
    (config : VolumeConfig) (now : ℕ) (s : Stripe)
    → (open_episode config now s).borrow_shards ≡ s.borrow_shards
unfolding open_episode publish_wrap_deferred_deadline
open_episode-shards config now s =
    if-both (λ (t : Stripe). t.borrow_shards ≡ s.borrow_shards) (s.wrap_deferred_since_ns == 0) _ _
      refl refl

module _ (config : VolumeConfig) (now from to shard chunk : ℕ) (episode : Bool) (s : Stripe)
    (leases : config.lease_t_ns ≢ 0) (live : lease_active config now s ≡ true)
    (shards : length s.borrow_shards ≤ 64) (limit : to ≤ 64) (low : from ≤ chunk)
    (high : chunk < to) (borrowed : count_of (get_or (get_or s.borrow_shards shard []) chunk 0) ≢ 0)
    (calm : (episode ≡ false) ⊎ (past_ceiling config now s ≡ false)) where
  lease_gate-defers :
      let r = lease_gate config now from to episode s in
      (r.1 ≡ false) × (r.0.borrow_shards ≡ s.borrow_shards)
  unfolding lease_gate
  lease_gate-defers =
      let counts =
        borrows_between-counts s.borrow_shards from (min to 64) 0 shard chunk (omega arith)
          (omega arith) low (omega arith) in
      let on : (config.lease_t_ns == 0) ≡ false = ground arith in
      let some_borrow : (borrows_between s.borrow_shards from (min to 64) 0 == 0) ≡ false =
        ground (arith, counts) in
      let busy : (not (lease_active config now s)
            || borrows_between s.borrow_shards from (min to 64) 0 == 0)
          ≡ false =
        rw (live, some_borrow) refl in
      elim (Bool-cases episode) [
        | inr early ↦ rw (on, busy, early) (refl, refl)
        | inl mandatory ↦
            let waits : past_ceiling config now s ≡ false = elim calm [
              | inl early ↦ absurd (ground arith)
              | inr waits ↦ waits
            ] in
            rw (on, busy, mandatory, waits) (refl, open_episode-shards config now s)
      ]

-- While the lease is live and a borrow is counted in a chunk that an advance would expose, the advance is
-- put off, unless it may force its way past the ceiling: no generation, cursor or borrow slot changes
-- and the intent is clear again.
pub advance_frontier-defers :
    (config : VolumeConfig) (now pass from to shard chunk : ℕ) (episode : Bool) (s : Stripe)
    → config.lease_t_ns ≢ 0
    → lease_active config now s ≡ true
    → length s.borrow_shards ≤ 64
    → to ≤ 64
    → from ≤ chunk
    → chunk < to
    → count_of (get_or (get_or s.borrow_shards shard []) chunk 0) ≢ 0
    → (episode ≡ false) ⊎ (past_ceiling config now s ≡ false)
    → let r = advance_frontier config now pass from to episode s in
      (r.1 ≡ false)
      × (core r.0 ≡ core s)
      × (r.0.borrow_shards ≡ s.borrow_shards)
      × (r.0.wrap_intent ≡ 0)
unfolding advance_frontier set_wrap_intent lease_active past_ceiling
advance_frontier-defers config now pass from to shard chunk episode s leases live shards limit low
      high borrowed calm =
    let gate =
      lease_gate-defers config now from to shard chunk episode (set_wrap_intent true s) leases live
        shards limit low high borrowed calm in
    let ahead : leb to from ≡ false = ground arith in
    rw (ahead, gate.0)
      (refl, lease_gate-core config now from to episode (set_wrap_intent true s), gate.1, refl)
