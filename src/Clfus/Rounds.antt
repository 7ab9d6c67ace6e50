-- ===== src/Clfus/Rounds.antt =====
-- src/ram_cache/clfus.cpp: the loop that evicts.
use cyclone_cache.Common.{
  ℕ, zero, suc, ◌+◌, ◌-◌, ◌^◌, ◌<◌, ◌≤◌, ◌≡◌, refl, ap, ◌∙◌, inl, inr, List, [], ◌∷◌, true, false,
  ◌&&◌, Option, some, length, ltb, Bool-cases, Option-cases, arith,
}
use cyclone_cache.Clfus.{
  Averages, ClfusEntry, Segment, data_size, back, without_back, requeue_limit, requeue, retire,
  evict_round, is_empty, over_budget, evict_rounds, make_room,
}
use cyclone_cache.Clfus.Budget.{
  IsCounted, total, found_size, total-without_back, length-without_back, back-none, empty_total,
  length_zero, trim_history_lem,
}

-- The rounds that are left: the active entries and the requeues.
abbrev left : {Value : Type 0} → Segment Value × ℕ → ℕ
left round = length round.0.active_lru + (requeue_limit - round.1)

module _ {Value : Type 0} (averages : Averages Value) where
  full_length : (l : List ClfusEntry) (v : ClfusEntry) → back l ≡ some v → 1 ≤ length l
  unfolding back
  full_length [] v h = absurd (ground arith)
  full_length (e ∷ l) v h = omega arith

  retire-IsCounted :
      (v : ClfusEntry) (s : Segment Value)
      → back s.active_lru ≡ some v
      → IsCounted s
      → s.bytes_used < 2 ^ 64
      → IsCounted (retire averages v s) × ((retire averages v s).bytes_used ≤ s.bytes_used)
  unfolding retire
  retire-IsCounted v s last h fits =
      let size : total s.active_lru ≡ total (without_back s.active_lru) + data_size v =
        total-without_back s.active_lru
        ∙ ap (λ (o : Option ClfusEntry). total (without_back s.active_lru) + found_size o) last in
      let trimmed =
        trim_history_lem (suc (length s.history_lru)) (record v { bytes = [] } ∷ s.history_lru)
          (omega arith) (omega (arith, h.no_data)) in
      (
        record { used = omega (arith, size, h.used); bounded = trimmed.0; no_data = trimmed.1 },
        omega (arith, size, h.used),
      )

  -- A round on entries that are there keeps the count and takes one of the rounds that are left.
  evict_round_lem :
      (requeues : ℕ) (s : Segment Value)
      → requeues ≤ requeue_limit
      → is_empty s.active_lru ≡ false
      → IsCounted s
      → s.bytes_used < 2 ^ 64
      → let r = evict_round averages requeues s in
        IsCounted r.0
        × (r.0.max_bytes ≡ s.max_bytes)
        × (r.0.bytes_used ≤ s.bytes_used)
        × (r.1 ≤ requeue_limit)
        × (suc (left r) ≡ left (s, requeues))
  unfolding evict_round requeue retire
  evict_round_lem requeues s few full h fits = elim (Option-cases (back s.active_lru)) [
    | inl gone ↦ absurd (ground (arith, back-none s.active_lru gone))
    | inr (v, last) ↦
        let some_left = full_length s.active_lru v last in
        let shorter = length-without_back s.active_lru in
        elim (Bool-cases (ltb 0 v.hits && ltb requeues requeue_limit)) [
          | inl again ↦
              let size : total s.active_lru ≡ total (without_back s.active_lru) + data_size v =
                total-without_back s.active_lru
                ∙ ap (λ (o : Option ClfusEntry). total (without_back s.active_lru) + found_size o)
                    last in
              let more : requeues < requeue_limit = ground arith in
              rw (evict_round, last, again)
                (
                  record {
                    used = omega (arith, size, h.used);
                    bounded = h.bounded;
                    no_data = h.no_data;
                  },
                  refl,
                  omega arith,
                  omega arith,
                  omega (arith, some_left, shorter),
                )
          | inr out ↦
              let (counted, less) = retire-IsCounted v s last h fits in
              rw (evict_round, last, out)
                (counted, refl, less, few, omega (arith, some_left, shorter))
        ]
  ]

  over_budget_enough :
      (required : ℕ) (s : Segment Value)
      → IsCounted s
      → required ≤ s.max_bytes
      → s.bytes_used + required < 2 ^ 64
      → over_budget required s ≡ false
      → s.bytes_used + required ≤ s.max_bytes
  unfolding over_budget
  over_budget_enough required s h small fits enough = elim (Bool-cases (is_empty s.active_lru)) [
    | inl empty ↦ omega (arith, empty_total s.active_lru empty, h.used)
    | inr full ↦ ground arith
  ]

  over_budget_full :
      (required : ℕ) (s : Segment Value)
      → over_budget required s ≡ true
      → is_empty s.active_lru ≡ false
  unfolding over_budget
  over_budget_full required s over = ground arith

  evict_rounds_lem :
      (n required requeues : ℕ) (s : Segment Value)
      → requeues ≤ requeue_limit
      → left (s, requeues) ≤ n
      → IsCounted s
      → required ≤ s.max_bytes
      → s.bytes_used + required < 2 ^ 64
      → let r = evict_rounds averages n required requeues s in
        IsCounted r × (r.bytes_used + required ≤ s.max_bytes) × (r.max_bytes ≡ s.max_bytes)
  unfolding evict_rounds
  evict_rounds_lem zero required requeues s few short h small fits = (
    h,
    omega
        (arith, h.used, empty_total s.active_lru (length_zero s.active_lru (omega (arith, short)))),
    refl,
  )
  evict_rounds_lem (suc n) required requeues s few short h small fits =
      elim (Bool-cases (over_budget required s)) [
        | inl over ↦
            let next = evict_round averages requeues s in
            let (counted, max, less, few', one) =
              evict_round_lem requeues s few (over_budget_full required s over) h (omega arith) in
            let (done, room, kept) =
              evict_rounds_lem n required next.1 next.0 few' (omega (arith, one, short)) counted
                (omega (arith, max, small)) (omega (arith, less, fits)) in
            rw over (done, omega (arith, room, max), kept ∙ max)
        | inr enough ↦ rw enough (h, over_budget_enough required s h small fits enough, refl)
      ]

  -- The rounds of an eviction are enough: it ends with the required bytes free.
  pub make_room_lem :
      (required : ℕ) (s : Segment Value)
      → IsCounted s
      → required ≤ s.max_bytes
      → s.bytes_used + required < 2 ^ 64
      → let r = make_room averages required s in
        IsCounted r × (r.bytes_used + required ≤ s.max_bytes) × (r.max_bytes ≡ s.max_bytes)
  unfolding make_room
  make_room_lem required s h small fits =
      evict_rounds_lem (requeue_limit + length s.active_lru) required 0 s (omega arith)
        (omega arith) h small fits
