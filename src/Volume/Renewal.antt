-- ===== src/Volume/Renewal.antt =====
-- src/core/volume.cpp: what a renewal of a read lease promises.
use cyclone_cache.Common.{
  ℕ, ◌+◌, ◌-◌, ◌/◌, ◌^◌, ◌<◌, ◌≤◌, ◌≡◌, ◌≢◌, refl, sym, ◌∙◌, ap, inl, inr, Bool, true, false, not,
  ◌||◌, ltb, ◌==◌, Bool-cases, if-both, arith,
}
use cyclone_cache.Common.Words.{word_add, word_sub}
use cyclone_cache.Volume.{Stripe, VolumeConfig}
use cyclone_cache.Volume.Lease.{
  BorrowToken, ok, stamp_read_lease, cas_max_lease, borrow_still_counted, wrap_intent_set,
  renew_read_lease, renew_read_lease_strict, borrow_slot_at, borrow_shard,
}

-- The lease after a stamp covers three quarters of its duration.
stamp_read_lease-covers :
    (config : VolumeConfig) (now : ℕ) (s : Stripe)
    → config.lease_t_ns ≢ 0
    → now + config.lease_t_ns < 2 ^ 64
    → now + (config.lease_t_ns - config.lease_t_ns / 4)
      ≤ (stamp_read_lease config now s).lease_expiry_ns
unfolding stamp_read_lease cas_max_lease
stamp_read_lease-covers config now s on room =
    let t = config.lease_t_ns in
    let leases : (t == 0) ≡ false = ground arith in
    let floor : word_sub (word_add now t) (t / 4) ≡ now + (t - t / 4) = omega arith in
    let full : word_add now t ≡ now + t = omega arith in
    rw (leases, floor, full)
      (elim (Bool-cases (ltb s.lease_expiry_ns (now + (t - t / 4)))) [
        | inl low ↦ rw low (omega arith)
        | inr covered ↦ rw covered (ground arith)
      ])

-- A stamp moves the lease only.
stamp_read_lease-rest :
    (config : VolumeConfig) (now : ℕ) (s : Stripe)
    → let t = stamp_read_lease config now s in t ≡ record s { lease_expiry_ns = t.lease_expiry_ns }
unfolding stamp_read_lease
stamp_read_lease-rest config now s =
    if-both (λ (t : Stripe). t ≡ record s { lease_expiry_ns = t.lease_expiry_ns })
      (config.lease_t_ns == 0) _ _ refl refl

-- What a reader may rely on after a renewal that succeeded.
pub record IsRenewed (config : VolumeConfig) (now threshold : ℕ) (token : BorrowToken)
    (s t : Stripe) : Type 0 where
  pub hidden : s.exposure_gen ≤ threshold
  pub counted : borrow_still_counted s token ≡ true
  pub covered : now + (config.lease_t_ns - config.lease_t_ns / 4) ≤ t.lease_expiry_ns
  pub rest : t ≡ record s { lease_expiry_ns = t.lease_expiry_ns }

stamp_read_lease-counted :
    (config : VolumeConfig) (now : ℕ) (token : BorrowToken) (s : Stripe)
    → borrow_still_counted (stamp_read_lease config now s) token ≡ borrow_still_counted s token
unfolding borrow_still_counted borrow_slot_at borrow_shard
stamp_read_lease-counted config now token s =
    ap (λ (t : Stripe). borrow_still_counted t token) (stamp_read_lease-rest config now s)

renewed :
    (config : VolumeConfig) (now threshold : ℕ) (token : BorrowToken) (s : Stripe)
    → config.lease_t_ns ≢ 0
    → now + config.lease_t_ns < 2 ^ 64
    → s.exposure_gen ≤ threshold
    → borrow_still_counted s token ≡ true
    → IsRenewed config now threshold token s (stamp_read_lease config now s)
renewed config now threshold token s on room hidden counted = record {
  hidden = hidden;
  counted = counted;
  covered = stamp_read_lease-covers config now s on room;
  rest = stamp_read_lease-rest config now s;
}

-- The two tests that a renewal fails on.
renewable :
    (gen threshold : ℕ) (counted : Bool)
    → (ltb threshold gen || not counted) ≡ false
    → (gen ≤ threshold) × (counted ≡ true)
renewable gen threshold counted h = (ground arith, ground arith)

-- A renewal succeeds only if the generation has not passed the borrow's threshold and the borrow is
-- counted; the lease then covers three quarters of its duration and nothing else has moved. The strict
-- one answers `ok` only if no wrap or advance is in flight as well.
pub renew_read_lease_lem :
    (config : VolumeConfig) (admitted : Bool) (now threshold : ℕ) (token : BorrowToken) (s : Stripe)
    → now + config.lease_t_ns < 2 ^ 64
    → let plain = renew_read_lease config admitted now threshold token s in
      let strict = renew_read_lease_strict config admitted now threshold token s in
      (plain.1 ≡ true → IsRenewed config now threshold token s plain.0)
      × (strict.1 ≡ ok → IsRenewed config now threshold token s strict.0 × (s.wrap_intent ≡ 0))
unfolding renew_read_lease renew_read_lease_strict wrap_intent_set
renew_read_lease_lem config admitted now threshold token s room =
    let stamped = stamp_read_lease config now s in
    let same_gen : stamped.exposure_gen ≡ s.exposure_gen =
      ap (λ (t : Stripe). t.exposure_gen) (stamp_read_lease-rest config now s) in
    let same_intent : stamped.wrap_intent ≡ s.wrap_intent =
      ap (λ (t : Stripe). t.wrap_intent) (stamp_read_lease-rest config now s) in
    (
      elim (Bool-cases (config.lease_t_ns == 0 || not admitted)) [
        | inl off ↦ rw off (λ no. absurd (ground arith))
        | inr on ↦
            elim (Bool-cases (ltb threshold s.exposure_gen || not (borrow_still_counted s token))) [
              | inl lost ↦ rw (on, lost) (λ no. absurd (ground arith))
              | inr kept ↦
                  let tests =
                    renewable s.exposure_gen threshold (borrow_still_counted s token) kept in
                  rw (on, kept)
                    (λ _. renewed config now threshold token s (ground arith) room tests.0 tests.1)
            ]
      ],
      elim (Bool-cases (config.lease_t_ns == 0)) [
        | inl off ↦ rw off (λ no. absurd (ground arith))
        | inr on ↦ elim (Bool-cases (not admitted)) [
          | inl closed ↦ rw (on, closed) (λ no. absurd (ground arith))
          | inr admitted' ↦
              elim (Bool-cases
                (ltb threshold stamped.exposure_gen || not (borrow_still_counted stamped token))) [
                  | inl lost ↦ rw (on, admitted', lost) (λ no. absurd (ground arith))
                  | inr kept ↦ elim (Bool-cases (wrap_intent_set stamped)) [
                    | inl intent ↦ rw (on, admitted', kept, intent) (λ no. absurd (ground arith))
                    | inr clear ↦
                        let tests =
                          renewable stamped.exposure_gen threshold
                            (borrow_still_counted stamped token) kept in
                        rw (on, admitted', kept, clear)
                          (λ _. (
                            renewed config now threshold token s (ground arith) room
                                (omega (arith, tests.0, same_gen))
                                (sym (stamp_read_lease-counted config now token s) ∙ tests.1),
                            ground (arith, same_intent),
                          ))
                  ]
                ]
        ]
      ],
    )
