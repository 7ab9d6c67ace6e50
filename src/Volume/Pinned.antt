-- ===== src/Volume/Pinned.antt =====
-- src/core/volume.cpp: a reservation while a borrow pins a chunk of the stripe.
use cyclone_cache.Common.{
  ℕ, ◌+◌, ◌-◌, ◌/◌, ◌^◌, ◌<◌, ◌≤◌, ◌≡◌, ◌≢◌, ◌⊎◌, refl, sym, ◌∙◌, ap, subst, min, inl, inr, Bool,
  true, false, not, ◌||◌, List, [], length, get_or, leb, ltb, ◌==◌, if◌then◌else◌, Bool-cases,
  if-both, arith,
}
use cyclone_cache.Common.Words.{word_add, word_sub}
use cyclone_cache.BorrowSlot.{count_of}
use cyclone_cache.Volume.{Stripe, VolumeConfig, chunk_index_ceil}
use cyclone_cache.Volume.Frontier.{Core, core, chunk_index_ceil-limit}
use cyclone_cache.Volume.Lease.{
  lease_gate, lease_active, past_ceiling, open_episode, end_deferral_episode,
  publish_wrap_deferred_deadline, set_wrap_intent, borrows_between,
}
use cyclone_cache.Volume.Wrap.{
  wrap_to, record_wrap, store_exposure_gen, publish_wrap_phase, set_current_phase, drop_cursor,
  mark_wrap_committed,
}
use cyclone_cache.Volume.Reserve.{
  Answers, advance_frontier, advanced, prepare_wrap, mandatory_advance, retention_prepare,
  count_deferred_advance, frontier_abs,
}
use cyclone_cache.Volume.Safety.{
  IsAt, pass_index, frontier_at, early_index, prepare_wrap_lem, mandatory_advance_lem,
  early_advance_lem,
}
use cyclone_cache.Volume.Entered.{IsAt-pass_index}
use cyclone_cache.Volume.Gate.{advance_frontier-defers}

-- The fields that decide whether a lease is live and which borrows count.
abbrev pub leases_of : Stripe → ℕ × List (List ℕ)
leases_of s = (s.lease_expiry_ns, s.borrow_shards)

lease_gate-leases :
    (config : VolumeConfig) (now lo hi : ℕ) (episode : Bool) (s : Stripe)
    → (episode ≡ false) ⊎ (past_ceiling config now s ≡ false)
    → leases_of (lease_gate config now lo hi episode s).0 ≡ leases_of s
unfolding lease_gate end_deferral_episode open_episode publish_wrap_deferred_deadline
lease_gate-leases config now lo hi episode s calm =
    let P : Stripe × Bool → Type 0 = λ r. leases_of r.0 ≡ leases_of s in
    let S : Stripe → Type 0 = λ t. leases_of t ≡ leases_of s in
    if-both P (config.lease_t_ns == 0) _ _ refl (
      if-both P
        (not (lease_active config now s) || borrows_between s.borrow_shards lo (min hi 64) 0 == 0) _
        _ (if-both S (s.wrap_deferred_since_ns == 0) _ _ refl refl)
        (elim calm [
          | inl early ↦ rw early refl
          | inr waits ↦ rw waits (
              if-both P (not episode) _ _ refl
                (if-both S (s.wrap_deferred_since_ns == 0) _ _ refl refl))
        ]))

advance_frontier-leases :
    (config : VolumeConfig) (now pass from to : ℕ) (episode : Bool) (s : Stripe)
    → (episode ≡ false) ⊎ (past_ceiling config now s ≡ false)
    → leases_of (advance_frontier config now pass from to episode s).0 ≡ leases_of s
unfolding advance_frontier advanced set_wrap_intent store_exposure_gen past_ceiling
advance_frontier-leases config now pass from to episode s calm =
    let gate = lease_gate config now from to episode (set_wrap_intent true s) in
    let same = lease_gate-leases config now from to episode (set_wrap_intent true s) calm in
    let P : Stripe × Bool → Type 0 = λ r. leases_of r.0 ≡ leases_of s in
    if-both P (leb to from) _ _ refl (if-both P gate.1 _ _ same same)

-- A borrow is counted in a chunk while the lease is live.
pub record IsPinned (config : VolumeConfig) (now shard chunk : ℕ) (s : Stripe) : Type 0 where
  pub leases : config.lease_t_ns ≢ 0
  pub live : lease_active config now s ≡ true
  pub shards : length s.borrow_shards ≤ 64
  pub counted : count_of (get_or (get_or s.borrow_shards shard []) chunk 0) ≢ 0

IsPinned-same :
    (config : VolumeConfig) (now shard chunk : ℕ) (s t : Stripe)
    → leases_of t ≡ leases_of s
    → IsPinned config now shard chunk s
    → IsPinned config now shard chunk t
unfolding lease_active
IsPinned-same config now shard chunk s t same pinned = record {
  leases = pinned.leases;
  live =
      ap (λ (l : ℕ × List (List ℕ)). lease_active config now (record s { lease_expiry_ns = l.0 }))
        same
      ∙ pinned.live;
  shards = omega (arith, ap (λ (l : ℕ × List (List ℕ)). length l.1) same, pinned.shards);
  counted = λ none. pinned.counted (
      sym (ap (λ (l : ℕ × List (List ℕ)). count_of (get_or (get_or l.1 shard []) chunk 0)) same)
      ∙ none);
}

-- An advance from a frontier at or under the pinned chunk does not cross it.
advance_frontier-pinned :
    (config : VolumeConfig) (now pass from to shard chunk : ℕ) (episode : Bool) (s : Stripe)
    → IsPinned config now shard chunk s
    → to ≤ 64
    → from ≤ chunk
    → (episode ≡ false) ⊎ (past_ceiling config now s ≡ false)
    → (if leb to from
        then from
        else if (advance_frontier config now pass from to episode s).1
        then to
        else from)
      ≤ chunk
advance_frontier-pinned config now pass from to shard chunk episode s pinned limit under calm =
    let r = advance_frontier config now pass from to episode s in
    if-both (λ (v : ℕ). v ≤ chunk) (leb to from) from _ under
      (elim (Bool-cases (ltb chunk to)) [
        | inl across ↦
            let put_off =
              advance_frontier-defers config now pass from to shard chunk episode s pinned.leases
                pinned.live pinned.shards limit under (ground arith) pinned.counted calm in
            rw put_off.0 under
        | inr short ↦ if-both (λ (v : ℕ). v ≤ chunk) r.1 to from (ground arith) under
      ])

prepare_wrap-pinned :
    (answers : Answers) (doc chunk : ℕ) (s : Stripe)
    → frontier_at (core s) ≤ chunk
    → let r = prepare_wrap answers doc s in
      (r.1.1 ≤ chunk)
      × (leases_of r.0 ≡ leases_of s)
      × (r.0.wrap_deferred_since_ns ≡ s.wrap_deferred_since_ns)
unfolding prepare_wrap wrap_to set_wrap_intent record_wrap store_exposure_gen publish_wrap_phase
    set_current_phase drop_cursor mark_wrap_committed
prepare_wrap-pinned answers doc chunk s under =
    if-both
      (λ (r : Stripe × (ℕ × ℕ)).
        (r.1.1 ≤ chunk)
        × (leases_of r.0 ≡ leases_of s)
        × (r.0.wrap_deferred_since_ns ≡ s.wrap_deferred_since_ns))
      (ltb (word_sub (word_add s.offset s.size) s.write_pos) doc) _ _ (omega arith, refl, refl)
      (under, refl, refl)

reached :
    (t f chunk : ℕ) (go : Bool)
    → (if leb t f then f else if go then t else f) ≤ chunk
    → f ≤ chunk
    → go ≡ true
    → t ≤ chunk
reached t f chunk go index under ahead = elim (Bool-cases (leb t f)) [
  | inl behind ↦ ground arith
  | inr onward ↦ subst (λ (v : ℕ). v ≤ chunk) (rw (onward, ahead) refl) index
]

mandatory_advance-pinned :
    (config : VolumeConfig) (answers : Answers) (pass f need shard chunk : ℕ) (s : Stripe)
    → IsPinned config answers.now_gate shard chunk s
    → past_ceiling config answers.now_gate s ≡ false
    → s.chunks ≤ 64
    → f ≤ chunk
    → let r = mandatory_advance config answers pass f need s in
      (r.1.1 ≤ chunk) × (leases_of r.0 ≡ leases_of s)
unfolding mandatory_advance count_deferred_advance
mandatory_advance-pinned config answers pass f need shard chunk s pin calm limit under =
    let t = chunk_index_ceil s need in
    let r = advance_frontier config answers.now_gate pass f t true s in
    let within : t ≤ 64 = omega (arith, chunk_index_ceil-limit s need, limit) in
    let leases = advance_frontier-leases config answers.now_gate pass f t true s (inr calm) in
    let index =
      advance_frontier-pinned config answers.now_gate pass f t shard chunk true s pin within under
        (inr calm) in
    let P : Stripe × (Bool × ℕ) → Type 0 = λ x. (x.1.1 ≤ chunk) × (leases_of x.0 ≡ leases_of s) in
    let short : P (if r.1 then (r.0, (true, t)) else (count_deferred_advance r.0, (false, f))) =
      elim (Bool-cases r.1) [
        | inl go ↦ rw go (reached t f chunk r.1 index under go, leases)
        | inr stay ↦ rw stay (under, leases)
      ] in
    if-both P (ltb (frontier_abs s f) need) _ _ short (under, refl)

-- A reservation leaves the frontier at or under a chunk that a counted borrow under a live lease pins,
-- where it lies at or under it before, unless the gate may force a step past the ceiling.
pub retention_prepare-pinned :
    (config : VolumeConfig) (answers : Answers) (doc shard chunk : ℕ) (s : Stripe)
    → IsAt (core s) (pass_index (core s)) (frontier_at (core s))
    → pass_index (core s) + 1 < 2 ^ 50
    → doc ≤ s.offset + s.size - s.data_offset
    → IsPinned config answers.now_gate shard chunk s
    → IsPinned config answers.now_early shard chunk s
    → past_ceiling config answers.now_gate s ≡ false
    → frontier_at (core s) ≤ chunk
    → frontier_at (core (retention_prepare config answers doc s).0) ≤ chunk
unfolding retention_prepare past_ceiling
retention_prepare-pinned config answers doc shard chunk s at room fits pin pin' calm under =
    let r1 = prepare_wrap answers doc s in
    let first =
      prepare_wrap_lem config answers doc (pass_index (core s)) (frontier_at (core s)) s at room
        refl refl fits in
    let pass = r1.1.0 in
    let need = word_add r1.0.write_pos doc in
    let exact : need ≡ r1.0.write_pos + doc = omega (arith, first.1, at.open'.room) in
    let ends : r1.0.offset + r1.0.size ≡ s.offset + s.size =
      ap (λ (c : Core). c.offset + c.size) first.2 in
    let r2 = mandatory_advance config answers pass r1.1.1 need r1.0 in
    let second =
      mandatory_advance_lem config answers pass r1.1.1 need r1.0 first.0
        (omega (arith, exact, first.1, ends)) in
    let wrap = prepare_wrap-pinned answers doc chunk s under in
    let calm' : past_ceiling config answers.now_gate r1.0 ≡ false =
      ap
        (λ (since : ℕ).
          past_ceiling config answers.now_gate (record s { wrap_deferred_since_ns = since }))
        wrap.2
      ∙ calm in
    let advance =
      mandatory_advance-pinned config answers pass r1.1.1 need shard chunk r1.0
        (IsPinned-same config answers.now_gate shard chunk s r1.0 wrap.1 pin) calm'
        first.0.open'.chunk_limit wrap.0 in
    elim (Bool-cases r2.1.0) [
      | inl go ↦
          let third = early_advance_lem config answers pass r2.1.1 need r2.0 second.0.0 in
          let index = IsAt-pass_index _ pass third.0 third.2.0 in
          let early : early_index config answers pass r2.1.1 need r2.0 ≤ chunk =
            advance_frontier-pinned config answers.now_early pass r2.1.1 _ shard chunk false r2.0
              (IsPinned-same config answers.now_early shard chunk s r2.0 (advance.1 ∙ wrap.1) pin')
              (omega (
                arith,
                chunk_index_ceil-limit r2.0 (word_add need (r2.0.chunk_size / 2)),
                second.0.0.open'.chunk_limit,
              ))
              advance.0 (inl refl) in
          let low : third.0 ≤ chunk = elim third.3 [
            | inl kept ↦ omega (arith, kept, advance.0)
            | inr moved ↦ omega (arith, moved, early)
          ] in
          rw go (omega (arith, index.1, low))
      | inr stay ↦
          let index = IsAt-pass_index (core r2.0) pass r2.1.1 second.0.0 in
          rw stay (omega (arith, index.1, advance.0))
    ]
