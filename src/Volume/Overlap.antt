-- ===== src/Volume/Overlap.antt =====
-- src/core/volume.cpp: a write as a whole, and the documents of the previous pass beside the span that
-- it fills.
use native.Mathlib.Nat.{mul-le-mul_right}
use cyclone_cache.Common.{
  ℕ, ◌+◌, ◌-◌, ◌*◌, ◌^◌, ◌<◌, ◌≤◌, ◌≡◌, refl, sym, ◌∙◌, ap, subst, inl, inr, Bool, true, false, ltb,
  Bool-cases, Option, none, some, if◌then◌else◌, arith,
}
use cyclone_cache.Common.Words.{word_add, word_sub, word_mul}
use cyclone_cache.Volume.{
  Stripe, VolumeConfig, round_up_8, in_data_area, exposure_threshold, chunk_of, data_start_rel,
}
use cyclone_cache.Volume.Frontier.{
  Core, core, IsOpen, frontier_of, data_start_rel_lem, chunk_of_lem, chunk_of-limit,
}
use cyclone_cache.Volume.Lease.{past_ceiling}
use cyclone_cache.Volume.Steps.{end_deferral_episode-core}
use cyclone_cache.Volume.Pinned.{IsPinned, retention_prepare-pinned}
use cyclone_cache.Volume.Reserve.{
  reserve, finish_reserve, prepare_space, retention_prepare, flush_wrap, Answers, WriteSlot,
  reserved, allocate_write_slot, commit_write_slot,
}
use cyclone_cache.Volume.Safety.{IsAt, pass_index, frontier_at, gen_exact, IsOpen-moved}
use cyclone_cache.Volume.Entered.{IsSafe, IsSettled, entered}
use cyclone_cache.Volume.Reserved.{
  reserve_lem, IsKept, IsClear, IsClearOf, allocate_write_slot_lem, commit_write_slot_lem,
}

-- On a stripe with retention that is safe and whose generation is below 2 ^ 49, a reservation leaves it
-- safe, whatever the clock answers and whatever the lock answers but at a wrap, where it must still be held;
-- so does the commit of the span, filled or not, under a lock that is still held or taken over.
pub allocate_write_slot-IsSafe :
    (config : VolumeConfig) (answers : Answers) (doc : ℕ) (s : Stripe)
    → s.retain ≡ true
    → answers.still_held_at_wrap ≡ true
    → IsSafe (core s)
    → s.exposure_gen < 2 ^ 49
    → let r = allocate_write_slot config answers doc s in
      IsKept (core s) (core r.0)
      × ((slot : WriteSlot) (still_held fill_ok : Bool)
          → r.1 ≡ reserved slot
          → IsKept (core r.0) (core (commit_write_slot slot still_held fill_ok r.0).0))
allocate_write_slot-IsSafe config answers doc s retain held safe room =
    let r = allocate_write_slot config answers doc s in
    let result = allocate_write_slot_lem config answers doc s retain held safe room in
    (
      result.0,
      λ slot still_held fill_ok given.
          commit_write_slot_lem (round_up_8 doc) slot still_held fill_ok r.0 result.0.0
            (subst (IsClearOf (core r.0) (round_up_8 doc)) given result.1),
    )

-- A generation at most the threshold of a document of an earlier pass is of the pass after that one,
-- with a frontier index at most the document's chunk.
index_below :
    (n pass f p c : ℕ) → p < pass → c < n → pass * (n + 1) + f ≤ (p + 1) * (n + 1) + c → f ≤ c
index_below n pass f p c earlier inside below =
    let least : p + 1 ≤ pass = omega arith in omega (arith, mul-le-mul_right (n + 1) least)

-- On a stripe with retention that is safe and whose generation is below 2 ^ 49, a document of an earlier
-- pass that the reservation has not exposed starts at or past the end of the reserved span and of the zeros
-- behind it. If the reservation wraps, the lock must still be held at the wrap.
pub reserved-clear_of_borrows :
    (config : VolumeConfig) (answers : Answers) (doc : ℕ) (s : Stripe) (slot : WriteSlot)
    (pass rel : ℕ)
    → s.retain ≡ true
    → answers.still_held_at_wrap ≡ true
    → IsSafe (core s)
    → s.exposure_gen < 2 ^ 49
    → (allocate_write_slot config answers doc s).1 ≡ reserved slot
    → let s' = (allocate_write_slot config answers doc s).0 in
      in_data_area s' rel ≡ true
      → pass < slot.pass
      → s'.exposure_gen ≤ exposure_threshold s' pass rel
      → (slot.new_write_pos ≤ s'.offset + rel) × (slot.fill_end ≤ s'.offset + rel)
unfolding in_data_area exposure_threshold
reserved-clear_of_borrows config answers doc s slot pass rel retain held safe room given inside
      earlier hidden =
    let s' = (allocate_write_slot config answers doc s).0 in
    let result = allocate_write_slot_lem config answers doc s retain held safe room in
    let clear : IsClear (core s') (round_up_8 doc) slot =
      subst (IsClearOf (core s') (round_up_8 doc)) given result.1 in
    let safe' = result.0.0 in
    let o : IsOpen (core s') =
      IsOpen-moved (entered (core s')) s'.write_pos s'.shared_write_pos s'.exposure_gen
        safe'.open' in
    let start : data_start_rel s' ≤ rel = ground arith in
    let stop : rel < s'.size = ground arith in
    let low : s'.data_offset ≤ s'.offset + rel =
      omega (arith, start, data_start_rel_lem s' o, o.start) in
    let chunk : chunk_of s' rel < s'.chunks = chunk_of-limit s' o rel in
    let pass_room : pass + 1 < 2 ^ 50 = omega (arith, clear.pass, safe'.pass_room) in
    let next : word_add pass 1 ≡ pass + 1 = omega (arith, pass_room) in
    let threshold : word_add (word_mul (pass + 1) (s'.chunks + 1)) (chunk_of s' rel)
        ≡ (pass + 1) * (s'.chunks + 1) + chunk_of s' rel =
      gen_exact (pass + 1) s'.chunks (chunk_of s' rel) pass_room o.chunk_limit
        (omega (arith, chunk)) in
    let bound : exposure_threshold s' pass rel ≡ (pass + 1) * (s'.chunks + 1) + chunk_of s' rel =
      rw next threshold in
    let index : frontier_at (core s') ≤ chunk_of s' rel =
      index_below s'.chunks (pass_index (core s')) (frontier_at (core s')) pass (chunk_of s' rel)
        (omega (arith, earlier, clear.pass)) chunk (omega (arith, safe'.gen, hidden, bound)) in
    let reach = chunk_of_lem s' o (frontier_at (core s')) rel index low stop in
    (omega (arith, clear.clean, reach), omega (arith, clear.fill, reach))

finish_reserve-core :
    (config : VolumeConfig) (answers : Answers) (doc : ℕ) (ready : Stripe) (pass : Option ℕ)
    → core (finish_reserve config answers doc ready pass).0 ≡ core ready
unfolding finish_reserve
finish_reserve-core config answers doc ready none = refl
finish_reserve-core config answers doc ready (some pass) = end_deferral_episode-core ready

reserve-pinned :
    (config : VolumeConfig) (answers : Answers) (doc shard chunk : ℕ) (s : Stripe)
    → s.retain ≡ true
    → IsAt (core s) (pass_index (core s)) (frontier_at (core s))
    → pass_index (core s) + 1 < 2 ^ 50
    → IsPinned config answers.now_gate shard chunk s
    → IsPinned config answers.now_early shard chunk s
    → past_ceiling config answers.now_gate s ≡ false
    → frontier_at (core s) ≤ chunk
    → frontier_at (core (reserve config answers doc s).0) ≤ chunk
unfolding reserve prepare_space
reserve-pinned config answers doc shard chunk s retain at room pin pin' calm under =
    let taken : prepare_space config answers doc s ≡ retention_prepare config answers doc s =
      ap
        (λ (b : Bool).
          if b then retention_prepare config answers doc s else flush_wrap config answers doc s)
        retain in
    let ready = prepare_space config answers doc s in
    elim (Bool-cases (ltb (word_sub (word_add s.offset s.size) s.data_offset) doc)) [
      | inl large ↦ rw large under
      | inr fits ↦
          let whole : word_sub (word_add s.offset s.size) s.data_offset
              ≡ s.offset + s.size - s.data_offset =
            omega (arith, at.open'.room, at.open'.area) in
          let below =
            retention_prepare-pinned config answers doc shard chunk s at room
              (ground (arith, whole, fits)) pin pin' calm under in
          rw fits (
            subst (λ (c : Core). frontier_at c ≤ chunk)
              (sym (
                finish_reserve-core config answers doc ready.0 ready.1
                ∙ ap (λ (r : Stripe × Option ℕ). core r.0) taken))
              below)
    ]

-- A document whose borrow is counted in its chunk under a live lease, and which the frontier has not
-- passed, is not overwritten: a reservation under the lock ends, zeros included, at or before its first
-- byte. The gate may not be past the ceiling of an open deferral episode.
pub reserve-clear_of_pinned :
    (config : VolumeConfig) (answers : Answers) (doc shard rel : ℕ) (s : Stripe) (slot : WriteSlot)
    → s.retain ≡ true
    → answers.still_held_at_wrap ≡ true
    → IsSafe (core s)
    → IsSettled (core s)
    → pass_index (core s) + 1 < 2 ^ 50
    → in_data_area s rel ≡ true
    → frontier_at (core s) ≤ chunk_of s rel
    → IsPinned config answers.now_gate shard (chunk_of s rel) s
    → IsPinned config answers.now_early shard (chunk_of s rel) s
    → past_ceiling config answers.now_gate s ≡ false
    → (reserve config answers doc s).1 ≡ reserved slot
    → (slot.new_write_pos ≤ s.offset + rel) × (slot.fill_end ≤ s.offset + rel)
unfolding in_data_area
reserve-clear_of_pinned config answers doc shard rel s slot retain held safe settled' room inside
      under pin pin' calm given =
    let s' = (reserve config answers doc s).0 in
    let result = reserve_lem config answers doc s retain held safe settled' room in
    let clear : IsClear (core s') doc slot = subst (IsClearOf (core s') doc) given result.1 in
    let o : IsOpen (core s) =
      IsOpen-moved (entered (core s)) s.write_pos s.shared_write_pos s.exposure_gen safe.open' in
    let at : IsAt (core s) (pass_index (core s)) (frontier_at (core s)) =
      subst
        (λ (w : ℕ).
          IsAt (record (core s) { write_pos = w }) (pass_index (core s)) (frontier_at (core s)))
        settled' safe in
    let below =
      reserve-pinned config answers doc shard (chunk_of s rel) s retain at room pin pin' calm
        under in
    let start : data_start_rel s ≤ rel = ground arith in
    let stop : rel < s.size = ground arith in
    let low : s.data_offset ≤ s.offset + rel =
      omega (arith, start, data_start_rel_lem s o, o.start) in
    let reach = chunk_of_lem s o (frontier_at (core s')) rel below low stop in
    let same : frontier_of (core s') (frontier_at (core s'))
        ≡ frontier_of (core s) (frontier_at (core s')) =
      ap (λ (c : Core). frontier_of c (frontier_at (core s'))) result.0.1 in
    (omega (arith, clear.clean, same, reach), omega (arith, clear.fill, same, reach))
