-- ===== src/Tests/Volumes.antt =====
-- The stripe, its geometry and its borrow slots on small inputs.
use cyclone_cache.Common.{
  ◌≡◌, ◌≤◌, ◌<◌, ◌+◌, ◌-◌, ◌*◌, ◌/◌, ◌%◌, ◌^◌, refl, Bool, true, false, [], ◌∷◌, replicate, arith,
  inr, set,
}
use cyclone_cache.BorrowSlot.{acquire, release, force_reset, count_of, generation_of, pack_of}
use cyclone_cache.BorrowSlot.Counting.{release-acquire, release-force_reset}
use cyclone_cache.FastDiv.{fast_div, quot, mulhi, mulhi_portable}
use cyclone_cache.FastDiv.Quotient.{quot-exact}
use cyclone_cache.Volume.{
  retention_geometry, pass_of, Stripe, VolumeConfig, VolumeCounters, configure_frontier,
  in_data_area, exposure_threshold, chunk_of, data_start_rel, frontier_rel_of, chunk_index_ceil,
}
use cyclone_cache.Volume.Frontier.{core, IsOpen}
use cyclone_cache.Directory.Choose.{AdmitClass}
use cyclone_cache.Volume.Admission.{snapshot, admit_hop, hop_class, frontier_index}
use cyclone_cache.Volume.Walk.{Walk, here, hop, InRegion, Walk-bounded}
use cyclone_cache.Volume.Gate.{advance_frontier-defers}
use cyclone_cache.Volume.Renewal.{IsRenewed, renew_read_lease_lem}
use cyclone_cache.Volume.Recovery.{IsCompleted, repair_wrap_state-completes}
use cyclone_cache.Volume.Opened.{configure_frontier-IsOpen}
use cyclone_cache.Volume.Reserve.{
  Answers, WriteSlot, reserved, allocate_write_slot, commit_write_slot, reserve, enter_lock,
  prepare_space, retention_prepare, prepare_wrap, mandatory_advance, early_advance,
  advance_frontier, advanced, finish_reserve, reserve_at, tail_fill, count_skipped_advance,
}
use cyclone_cache.Volume.Lease.{
  BorrowToken, ok, renew_read_lease, renew_read_lease_strict, stamp_read_lease,
  borrow_still_counted, borrow_slot_at, borrow_shard, wrap_intent_set, cas_max_lease, past_ceiling,
  lease_gate, lease_active, borrows_between, row_borrows, end_deferral_episode,
  publish_wrap_deferred_deadline, set_wrap_intent,
}
use cyclone_cache.Volume.Entered.{IsSafe}
use cyclone_cache.Volume.Reserved.{IsKept}
use cyclone_cache.Volume.Overlap.{
  allocate_write_slot-IsSafe, reserved-clear_of_borrows, reserve-clear_of_pinned,
}
use cyclone_cache.Volume.Pinned.{IsPinned}
use cyclone_cache.Volume.Geometry.{retention_geometry_covers}
use cyclone_cache.Volume.Wrap.{WriteLockToken, store_exposure_gen, repair_wrap_state}

release-acquire_example :
    release (acquire (pack_of 3 7)).1.generation (acquire (pack_of 3 7)).0 ≡ pack_of 3 7
unfolding acquire pack_of generation_of count_of
release-acquire_example = release-acquire (pack_of 3 7) (omega arith) refl

quot-exact_example :
    (quot (fast_div 65) (2 ^ 64 - 1) ≡ (2 ^ 64 - 1) / 65)
    × (mulhi_portable (2 ^ 64 - 1) (2 ^ 63 + 5) ≡ mulhi (2 ^ 64 - 1) (2 ^ 63 + 5))
quot-exact_example =
    quot-exact 65 (2 ^ 64 - 1) (2 ^ 63 + 5) (omega arith) (omega arith) (omega arith)

abbrev counters : VolumeCounters
counters = record {
  evictions = 1;
  wrap_count = 1;
  shared_wrap_count = 0;
  shared_last_wrap_time_ns = 0;
  last_wrap_time_ns = 5;
  last_wrap_interval_ns = 0;
  min_wrap_interval_ns = 0;
  wraps_forced_past_lease = 0;
  wraps_deferred_by_lease = 0;
  writes_dropped_by_lease = 0;
  advances_deferred_by_lease = 0;
  early_advances_skipped = 0;
  frontier_advances = 1;
  write_lock_force_releases = 0;
  write_lock_escalation_takeovers = 0;
  write_lock_live_holder_waits = 0;
  write_lock_usurp_aborts = 0;
}

-- A data area of four chunks of 1 MiB in the second pass: the fill is eight bytes from the frontier at
-- the first chunk, and a borrow counts in chunk 2.
abbrev stripe : Stripe
stripe = record {
  offset = 16384;
  size = 16384 + 2 ^ 22;
  data_offset = 32768;
  write_pos = 32768 + 2 ^ 20 - 8;
  shared_write_pos = 0;
  chunks = 4;
  chunk_size = 2 ^ 20;
  gen_div = fast_div 5;
  chunk_div = fast_div (2 ^ 20);
  retain = true;
  use_mmap_directory = false;
  exposure_gen = 6;
  wrap_intent = 0;
  lease_expiry_ns = 1500;
  borrow_shards = set (replicate 64 0) 2 1 ∷ [];
  wrap_deferred_since_ns = 0;
  wrap_deferred_deadline_ms = 0;
  current_phase = true;
  counters = counters;
}

abbrev config : VolumeConfig
config = record {
  wrap_retention = true;
  lease_t_ns = 1000;
  lease_ceiling_ns = 5000;
  max_object_size = 0;
  fill_large_document_tail = true;
}

abbrev token : WriteLockToken
token = record {
  acquired = true;
  forced_release = false;
  escalated_takeover = false;
  live_waits = 0;
  generation = 9;
}

abbrev answers : Answers
answers = record {
  token = token;
  still_held = true;
  still_held_at_wrap = true;
  now_repair = 1000;
  now_wrap = 1000;
  now_gate = 1000;
  now_early = 1001;
}

abbrev stripe-IsSafe : IsSafe (core stripe)
stripe-IsSafe = record {
  open' = record {
    start = omega arith;
    area = omega arith;
    room = omega arith;
    some_chunk = omega arith;
    chunk_limit = omega arith;
    some_bytes = omega arith;
    chunk_room = omega arith;
    cover = omega arith;
    last_chunk = omega arith;
    gen_division = refl;
    chunk_division = refl;
  };
  gen = refl;
  index = omega arith;
  low = omega arith;
  high = omega arith;
  pass_room = omega arith;
}

configure_frontier-IsOpen_example : IsOpen (core (configure_frontier config stripe))
configure_frontier-IsOpen_example =
    configure_frontier-IsOpen config stripe (omega arith) (omega arith) (omega arith)

-- The reservation of 600 KiB moves the frontier from chunk 1 to chunk 2, and its zeros end on a page.
abbrev slot : WriteSlot
slot = record {
  write_offset = 1081336;
  new_write_pos = 1695736;
  holds_write_lock = false;
  pass = 1;
  fill_serial = 0;
  fill_end = 1695744;
}

reserved_run : (allocate_write_slot config answers 614400 stripe).1 ≡ reserved slot
unfolding allocate_write_slot enter_lock reserve prepare_space retention_prepare prepare_wrap
    mandatory_advance early_advance advance_frontier advanced lease_gate lease_active
    borrows_between row_borrows count_of end_deferral_episode publish_wrap_deferred_deadline
    finish_reserve reserve_at tail_fill chunk_index_ceil frontier_rel_of data_start_rel quot
    fast_div mulhi store_exposure_gen set_wrap_intent count_skipped_advance
reserved_run = refl

allocate_write_slot-IsSafe_example :
    IsKept (core stripe) (core (allocate_write_slot config answers 614400 stripe).0)
    × ((slot' : WriteSlot) (still_held fill_ok : Bool)
        → (allocate_write_slot config answers 614400 stripe).1 ≡ reserved slot'
        → IsKept (core (allocate_write_slot config answers 614400 stripe).0) (
            core
              (commit_write_slot slot' still_held fill_ok
                (allocate_write_slot config answers 614400 stripe).0).0))
allocate_write_slot-IsSafe_example =
    allocate_write_slot-IsSafe config answers 614400 stripe refl refl stripe-IsSafe (omega arith)

-- A document of the first pass at the start of chunk 2.
reserved-clear_of_borrows_example :
    (slot.new_write_pos ≤ 16384 + 2113536) × (slot.fill_end ≤ 16384 + 2113536)
unfolding allocate_write_slot enter_lock reserve prepare_space retention_prepare prepare_wrap
    mandatory_advance early_advance advance_frontier advanced lease_gate lease_active
    borrows_between row_borrows count_of end_deferral_episode publish_wrap_deferred_deadline
    finish_reserve reserve_at tail_fill chunk_index_ceil frontier_rel_of data_start_rel quot
    fast_div mulhi store_exposure_gen set_wrap_intent count_skipped_advance in_data_area
    exposure_threshold chunk_of
reserved-clear_of_borrows_example =
    reserved-clear_of_borrows config answers 614400 stripe slot 0 2113536 refl refl stripe-IsSafe
      (omega arith) reserved_run refl (omega arith) (omega arith)

IsPinned-at_gate : IsPinned config 1000 0 2 stripe
unfolding lease_active count_of
IsPinned-at_gate = record {
  leases = λ none. absurd (omega arith);
  live = refl;
  shards = omega arith;
  counted = λ none. absurd (omega arith);
}

IsPinned-at_early : IsPinned config 1001 0 2 stripe
unfolding lease_active count_of
IsPinned-at_early = record {
  leases = λ none. absurd (omega arith);
  live = refl;
  shards = omega arith;
  counted = λ none. absurd (omega arith);
}

reserve_run : (reserve config answers 614400 stripe).1 ≡ reserved slot
unfolding reserve prepare_space retention_prepare prepare_wrap mandatory_advance early_advance
    advance_frontier advanced lease_gate lease_active borrows_between row_borrows count_of
    end_deferral_episode publish_wrap_deferred_deadline finish_reserve reserve_at tail_fill
    chunk_index_ceil frontier_rel_of data_start_rel quot fast_div mulhi store_exposure_gen
    set_wrap_intent count_skipped_advance
reserve_run = refl

reserve-clear_of_pinned_example :
    (slot.new_write_pos ≤ 16384 + 2113536) × (slot.fill_end ≤ 16384 + 2113536)
unfolding in_data_area data_start_rel chunk_of quot fast_div mulhi lease_active count_of
    past_ceiling
reserve-clear_of_pinned_example =
    reserve-clear_of_pinned config answers 614400 0 2113536 stripe slot refl refl stripe-IsSafe refl
      (omega arith) refl (omega arith) IsPinned-at_gate IsPinned-at_early refl reserve_run

retention_geometry_covers_example :
    (0 < (retention_geometry 5000000).chunks)
    × ((retention_geometry 5000000).chunks ≤ 64)
    × ((retention_geometry 5000000).chunk_size % 8 ≡ 0)
    × (2 ^ 20 ≤ (retention_geometry 5000000).chunk_size)
    × (5000000 ≤ (retention_geometry 5000000).chunks * (retention_geometry 5000000).chunk_size)
    × ((retention_geometry 5000000).chunks * (retention_geometry 5000000).chunk_size
        < 5000000 + (retention_geometry 5000000).chunk_size)
    × ((retention_geometry 5000000).chunk_size < 2 ^ 62)
retention_geometry_covers_example = retention_geometry_covers 5000000 (omega arith) (omega arith)

release-force_reset_example :
    (count_of (force_reset (pack_of 3 7)).0 ≡ 0)
    × (release (generation_of (pack_of 3 7)) (force_reset (pack_of 3 7)).0
        ≡ (force_reset (pack_of 3 7)).0)
    × (release (generation_of (pack_of 3 7)) (acquire (force_reset (pack_of 3 7)).0).0
        ≡ (acquire (force_reset (pack_of 3 7)).0).0)
unfolding count_of pack_of
release-force_reset_example = release-force_reset (pack_of 3 7) (λ none. absurd (omega arith))

advance_frontier-defers_example :
    ((advance_frontier config 1000 1 1 3 true stripe).1 ≡ false)
    × (core (advance_frontier config 1000 1 1 3 true stripe).0 ≡ core stripe)
    × ((advance_frontier config 1000 1 1 3 true stripe).0.borrow_shards ≡ stripe.borrow_shards)
    × ((advance_frontier config 1000 1 1 3 true stripe).0.wrap_intent ≡ 0)
unfolding past_ceiling
advance_frontier-defers_example =
    advance_frontier-defers config 1000 1 1 3 0 2 true stripe IsPinned-at_gate.leases
      IsPinned-at_gate.live IsPinned-at_gate.shards (omega arith) (omega arith) (omega arith)
      IsPinned-at_gate.counted (inr refl)

-- Two hops down a chain of the previous pass.
chain : Walk stripe (snapshot stripe) AdmitClass.retained 3300000 2 2200000
unfolding admit_hop hop_class in_data_area data_start_rel snapshot frontier_rel_of frontier_index
    pass_of quot fast_div mulhi
chain =
    hop AdmitClass.retained 3300000 3000000 1 2200000 refl
      (hop AdmitClass.retained 3000000 2200000 0 2200000 refl (here AdmitClass.retained 2200000))

Walk-bounded_example :
    (2200000 + 2 ≤ 3300000)
    × (InRegion stripe (snapshot stripe) AdmitClass.retained 3300000
        → InRegion stripe (snapshot stripe) AdmitClass.retained 2200000)
Walk-bounded_example =
    Walk-bounded stripe (snapshot stripe) AdmitClass.retained 3300000 2 2200000 chain

abbrev borrow : BorrowToken
borrow = record { generation = 0; counted = true; active = true; shard = 0; chunk = 2 }

renew_read_lease_lem_example :
    ((renew_read_lease config true 1400 12 borrow stripe).1 ≡ true
      → IsRenewed config 1400 12 borrow stripe
          (renew_read_lease config true 1400 12 borrow stripe).0)
    × ((renew_read_lease_strict config true 1400 12 borrow stripe).1 ≡ ok
        → IsRenewed config 1400 12 borrow stripe
            (renew_read_lease_strict config true 1400 12 borrow stripe).0
          × (stripe.wrap_intent ≡ 0))
renew_read_lease_lem_example = renew_read_lease_lem config true 1400 12 borrow stripe (omega arith)

renewed_run : (renew_read_lease_strict config true 1400 12 borrow stripe).1 ≡ ok
unfolding renew_read_lease_strict stamp_read_lease borrow_still_counted borrow_slot_at borrow_shard
    wrap_intent_set generation_of cas_max_lease
renewed_run = refl

-- A writer that died after it had committed the wrap to the second pass, before its cursor dropped.
abbrev stuck : Stripe
stuck = record stripe {
  use_mmap_directory = true;
  shared_write_pos = 4000000;
  exposure_gen = 4;
  wrap_intent = 3;
}

abbrev stuck-IsOpen : IsOpen (core stuck)
stuck-IsOpen = record {
  start = omega arith;
  area = omega arith;
  room = omega arith;
  some_chunk = omega arith;
  chunk_limit = omega arith;
  some_bytes = omega arith;
  chunk_room = omega arith;
  cover = omega arith;
  last_chunk = omega arith;
  gen_division = refl;
  chunk_division = refl;
}

repair_wrap_state-completes_example :
    ((repair_wrap_state 7 stuck).wrap_intent ≡ 0)
    × IsCompleted 1
        (core stuck)
        (repair_wrap_state 7 stuck).current_phase
        (core (repair_wrap_state 7 stuck))
repair_wrap_state-completes_example =
    repair_wrap_state-completes 7 true stuck refl stuck-IsOpen (omega arith) refl
