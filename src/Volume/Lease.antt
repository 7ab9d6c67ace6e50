-- ===== src/Volume/Lease.antt =====
-- src/core/volume.cpp and src/core/mmap_directory.cpp: the leases and the counted borrows of a
-- stripe, the reader's checks of a borrow and the writer's gate. The time that an operation reads is
-- an argument. A compare-and-exchange loop is its one successful exchange.
use cyclone_cache.Common.{
  ℕ, zero, suc, ◌+◌, ◌-◌, ◌*◌, ◌/◌, ◌%◌, ◌^◌, min, Bool, true, false, ◌&&◌, ◌||◌, not, List, [],
  ◌∷◌, map, get_or, set, ltb, leb, ◌==◌, if◌then◌else◌,
}
use cyclone_cache.Common.Words.{word_add, word_sub, low_32}
use cyclone_cache.BorrowSlot.{generation_of, count_of, acquire, release, force_reset}
use cyclone_cache.Volume.{Stripe, VolumeConfig, max_chunks}

-- `BorrowToken`.
pub record BorrowToken : Type 0 where
  pub generation : ℕ
  pub counted : Bool
  pub active : Bool
  pub shard : ℕ
  pub chunk : ℕ

abbrev pub no_borrow : BorrowToken
no_borrow = record { generation = 0; counted = false; active = false; shard = 0; chunk = 0 }

unfoldable pub cas_max_lease : ℕ → ℕ → ℕ → ℕ
cas_max_lease slot new_expiry skip_if_at_least =
    if ltb slot skip_if_at_least then new_expiry else slot

unfoldable pub stamp_read_lease : VolumeConfig → ℕ → Stripe → Stripe
stamp_read_lease config now s =
    let t = config.lease_t_ns in
    if t == 0 then s else record s {
      lease_expiry_ns =
          cas_max_lease s.lease_expiry_ns (word_add now t) (word_sub (word_add now t) (t / 4));
    }

-- An mmap directory has one row of slots, whatever the thread.
unfoldable pub borrow_shard : Stripe → ℕ → ℕ
borrow_shard s shard = if s.use_mmap_directory then 0 else shard

unfoldable pub borrow_slot_at : Stripe → ℕ → ℕ → ℕ
borrow_slot_at s shard chunk = get_or (get_or s.borrow_shards (borrow_shard s shard) []) chunk 0

unfoldable pub store_borrow_slot : ℕ → ℕ → ℕ → Stripe → Stripe
store_borrow_slot shard chunk word s =
    let row = get_or s.borrow_shards (borrow_shard s shard) [] in
    record s { borrow_shards = set s.borrow_shards (borrow_shard s shard) (set row chunk word) }

-- `thread_shard` is the caller's shard.
unfoldable pub acquire_borrow : VolumeConfig → ℕ → ℕ → Stripe → Stripe × BorrowToken
acquire_borrow config thread_shard chunk s =
    let c = if leb max_chunks chunk then max_chunks - 1 else chunk in
    let shard = borrow_shard s thread_shard in
    let (word, acquired) = acquire (borrow_slot_at s shard c) in
    if config.lease_t_ns == 0 then (s, no_borrow) else (
      store_borrow_slot shard c word s,
      record {
        generation = acquired.generation;
        counted = acquired.counted;
        active = true;
        shard = shard;
        chunk = c;
      },
    )

-- `admitted` is the answer of the handle call: the volume has not been closed.
unfoldable pub release_borrow : Bool → BorrowToken → Stripe → Stripe
release_borrow admitted token s =
    if not token.active || not token.counted || not admitted
    then s
    else store_borrow_slot token.shard token.chunk
        (release token.generation (borrow_slot_at s token.shard token.chunk)) s

unfoldable pub wrap_intent_set : Stripe → Bool
wrap_intent_set s = not (s.wrap_intent == 0)

unfoldable pub borrow_still_counted : Stripe → BorrowToken → Bool
borrow_still_counted s token =
    not token.active || generation_of (borrow_slot_at s token.shard token.chunk) == token.generation

-- `threshold` is the `BorrowEpoch`.
unfoldable pub borrow_still_valid : Stripe → ℕ → BorrowToken → Bool
borrow_still_valid s threshold token =
    not (wrap_intent_set s) && (leb s.exposure_gen threshold && borrow_still_counted s token)

unfoldable pub renew_read_lease : VolumeConfig → Bool → ℕ → ℕ → BorrowToken → Stripe → Stripe × Bool
renew_read_lease config admitted now threshold token s =
    if config.lease_t_ns == 0 || not admitted
    then (s, false)
    else if ltb threshold s.exposure_gen || not (borrow_still_counted s token)
    then (s, false)
    else (stamp_read_lease config now s, true)

pub data LeaseRenewal : Type 0 where
  ok copy_now torn leases_off : LeaseRenewal

unfoldable pub renew_read_lease_strict :
    VolumeConfig → Bool → ℕ → ℕ → BorrowToken → Stripe → Stripe × LeaseRenewal
renew_read_lease_strict config admitted now threshold token s =
    let stamped = stamp_read_lease config now s in
    if config.lease_t_ns == 0
    then (s, leases_off)
    else if not admitted
    then (s, torn)
    else if ltb threshold stamped.exposure_gen || not (borrow_still_counted stamped token)
    then (stamped, torn)
    else if wrap_intent_set stamped
    then (stamped, copy_now)
    else (stamped, ok)

unfoldable pub set_wrap_intent : Bool → Stripe → Stripe
set_wrap_intent active s = record s { wrap_intent = if active then 1 else 0 }

unfoldable pub publish_wrap_deferred_deadline : ℕ → Stripe → Stripe
publish_wrap_deferred_deadline deadline_ns s =
    let ms = low_32 (deadline_ns / 1000000) in
    record s {
      wrap_deferred_deadline_ms = if deadline_ns == 0 then 0 else if ms == 0 then 1 else ms;
    }

unfoldable pub ns_until_forced_wrap : VolumeConfig → Bool → ℕ → Stripe → ℕ
ns_until_forced_wrap config admitted now s =
    let remaining_ms = (s.wrap_deferred_deadline_ms + 2 ^ 32 - low_32 (now / 1000000)) % 2 ^ 32 in
    if config.lease_t_ns == 0 || not admitted || s.wrap_deferred_deadline_ms == 0
    then 2 ^ 64 - 1
    else if ltb (config.lease_ceiling_ns / 1000000) remaining_ms
    then 0
    else remaining_ms * 1000000

unfoldable pub end_deferral_episode : Stripe → Stripe
end_deferral_episode s =
    if s.wrap_deferred_since_ns == 0
    then s
    else publish_wrap_deferred_deadline 0 (record s { wrap_deferred_since_ns = 0 })

-- The counts of `n` chunks from `c` on, added to what is counted so far.
unfoldable pub row_borrows : List ℕ → ℕ → ℕ → ℕ → ℕ
row_borrows row c zero counted = counted
row_borrows row c (suc n) counted =
    row_borrows row (suc c) n (word_add counted (count_of (get_or row c 0)))

unfoldable pub borrows_between : List (List ℕ) → ℕ → ℕ → ℕ → ℕ
borrows_between [] lo hi counted = counted
borrows_between (row ∷ rows) lo hi counted =
    borrows_between rows lo hi (row_borrows row lo (hi - lo) counted)

abbrev pub reset_word : ℕ → ℕ
reset_word word = (force_reset word).0

unfoldable pub force_reset_all : Stripe → Stripe
force_reset_all s = record s { borrow_shards = map (map reset_word) s.borrow_shards }

unfoldable pub lease_active : VolumeConfig → ℕ → Stripe → Bool
lease_active config now s =
    not (s.lease_expiry_ns == 0)
    && (ltb now s.lease_expiry_ns
        && leb s.lease_expiry_ns
            (word_add (word_add now config.lease_t_ns) config.lease_ceiling_ns))

unfoldable pub past_ceiling : VolumeConfig → ℕ → Stripe → Bool
past_ceiling config now s =
    not (s.wrap_deferred_since_ns == 0)
    && ltb config.lease_ceiling_ns (word_sub now s.wrap_deferred_since_ns)

-- The start of an episode, unless one is open.
unfoldable pub open_episode : VolumeConfig → ℕ → Stripe → Stripe
open_episode config now s =
    if s.wrap_deferred_since_ns == 0
    then publish_wrap_deferred_deadline (word_add now config.lease_ceiling_ns)
        (record s { wrap_deferred_since_ns = now })
    else s

unfoldable pub forced_step : Stripe → Stripe
forced_step s =
    let counted = record s.counters {
      wraps_forced_past_lease = word_add s.counters.wraps_forced_past_lease 1;
    } in
    force_reset_all (
      publish_wrap_deferred_deadline 0
        (record s { counters = counted; wrap_deferred_since_ns = 0 }))

-- The answer is whether the step may go on.
unfoldable pub lease_gate : VolumeConfig → ℕ → ℕ → ℕ → Bool → Stripe → Stripe × Bool
lease_gate config now chunk_lo chunk_hi episode s =
    let count = borrows_between s.borrow_shards chunk_lo (min chunk_hi max_chunks) 0 in
    if config.lease_t_ns == 0
    then (s, true)
    else if not (lease_active config now s) || count == 0
    then (end_deferral_episode s, true)
    else if not episode
    then (s, false)
    else if past_ceiling config now s
    then (forced_step s, true)
    else (open_episode config now s, false)
