-- ===== src/Seqlock/Pacing.antt =====
-- src/core/directory.hpp: how often a reader tries again.
use cyclone_cache.Common.{
  ℕ, zero, suc, ◌+◌, ◌-◌, ◌*◌, ◌<◌, ◌≤◌, ◌≡◌, min, inl, inr, Bool, true, false, not, ltb, leb, ◌==◌,
  if◌then◌else◌, Bool-cases, if-both, arith,
}
use cyclone_cache.Seqlock.{
  SeqlockReadWait, fast_attempts, read_budget, first_sleep, max_sleep, sleep_for, next_step, slept,
  timed_retry, retry, give_up_fast, new_wait, fast_phase_cap,
}

-- The tries of one reader: `clock` is a lower bound of the next reading, the clock does not go back, and
-- a sleep lasts as long as it was asked to. Between two tries, an attempt may have seen no even version.
pub data Tries : SeqlockReadWait → ℕ → ℕ → Type 0 where
  stop : (w : SeqlockReadWait) (clock : ℕ) → Tries w clock zero
  no_even :
      (w : SeqlockReadWait) (clock now n : ℕ)
      → clock ≤ now
      → Tries (give_up_fast now w) now n
      → Tries w clock n
  again :
      (w : SeqlockReadWait) (clock now n : ℕ)
      → clock ≤ now
      → (retry now w).1.0 ≡ true
      → Tries (retry now w).0 (now + (retry now w).1.1) n
      → Tries w clock (suc n)

-- The tries that are left: in the fast phase they are counted, in the timed one each takes a step of the
-- backoff or reaches the deadline.
abbrev left : SeqlockReadWait → ℕ → ℕ
left w clock =
    if leb w.attempts fast_attempts
    then (fast_attempts - w.attempts) * first_sleep + read_budget + first_sleep
    else min ((w.deadline - clock) * first_sleep) (w.deadline - clock + (first_sleep - 1))

left_mono : (now clock : ℕ) (w : SeqlockReadWait) → clock ≤ now → left w now ≤ left w clock
left_mono now clock w h = elim (Bool-cases (leb w.attempts fast_attempts)) [
  | inl fast ↦ rw fast (omega arith)
  | inr timed ↦ rw timed (omega arith)
]

abbrev IsPaced : ℕ → ℕ → SeqlockReadWait → Type 0
IsPaced most clock w = (left w clock ≤ most) × (first_sleep ≤ w.step)

give_up_fast-left :
    (now clock : ℕ) (w : SeqlockReadWait)
    → clock ≤ now
    → first_sleep ≤ w.step
    → IsPaced (left w clock) now (give_up_fast now w)
unfolding give_up_fast
give_up_fast-left now clock w h step =
    let P : SeqlockReadWait → Type 0 = λ v. (left v now ≤ left w clock) × (first_sleep ≤ v.step) in
    let same : P w = (left_mono now clock w h, step) in
    elim (Bool-cases (ltb fast_attempts w.attempts)) [
      | inl timed ↦ rw timed same
      | inr fast ↦
          let early : leb w.attempts fast_attempts ≡ true = ground arith in
          let over : P (record w { attempts = fast_attempts }) = rw early (omega arith, step) in
          rw fast (
            if-both P (not w.fast_started) _ _ same
              (if-both P (ltb fast_phase_cap (now - w.fast_start)) _ _ over same))
    ]

next_step-least : (step : ℕ) → first_sleep ≤ step → first_sleep ≤ next_step step
unfolding next_step
next_step-least step h =
    if-both (λ (v : ℕ). first_sleep ≤ v) (ltb step max_sleep) _ _ (omega arith) h

retry-left :
    (now clock : ℕ) (w : SeqlockReadWait)
    → clock ≤ now
    → first_sleep ≤ w.step
    → (retry now w).1.0 ≡ true
    → (left (retry now w).0 (now + (retry now w).1.1) + first_sleep ≤ left w clock)
      × (first_sleep ≤ (retry now w).0.step)
unfolding retry timed_retry slept sleep_for
retry-left now clock w h step =
    let Q : SeqlockReadWait × (Bool × ℕ) → Type 0 = λ r.
      r.1.0 ≡ true
      → (left r.0 (now + r.1.1) + first_sleep ≤ left w clock) × (first_sleep ≤ r.0.step) in
    elim (Bool-cases (ltb w.attempts fast_attempts)) [
      | inl fast ↦
          let early : leb w.attempts fast_attempts ≡ true = ground arith in
          let early' : leb (w.attempts + 1) fast_attempts ≡ true = ground arith in
          let used : w.attempts < 100 = ground arith in
          rw (fast, early, early') (λ ok. (omega (arith, used), step))
      | inr slow ↦ elim (Bool-cases (w.attempts == fast_attempts)) [
        | inl last ↦
            let early : leb w.attempts fast_attempts ≡ true = ground arith in
            let late : leb (w.attempts + 1) fast_attempts ≡ false = ground arith in
            rw (slow, last, early, late) (λ ok. (omega (arith, step), next_step-least w.step step))
        | inr timed ↦
            let late : leb w.attempts fast_attempts ≡ false = ground arith in
            elim (Bool-cases (leb w.deadline now)) [
              | inl passed ↦ rw (slow, timed, passed) (λ no. absurd (ground arith))
              | inr before ↦
                  let time : now < w.deadline = ground arith in
                  rw (slow, timed, before, late)
                    (λ ok. (omega (arith, step, time), next_step-least w.step step))
            ]
      ]
    ]

-- A reader gives up: however the writers of the bucket go on, it tries again at most as often as the time
-- that is left allows, each round taking one of the tries of the fast phase, the first sleep of the timed
-- phase, or reaching the deadline.
Tries-left :
    (w : SeqlockReadWait) (clock n : ℕ)
    → Tries w clock n
    → first_sleep ≤ w.step
    → n * first_sleep ≤ left w clock
Tries-left w clock zero (stop w' c) step = omega arith
Tries-left w clock n (no_even w' c now n' later rest) step =
    let paced = give_up_fast-left now clock w later step in
    omega (arith, paced.0, Tries-left (give_up_fast now w) now n rest paced.1)
Tries-left w clock (suc n) (again w' c now n' later ok rest) step =
    let less = retry-left now clock w later step ok in
    omega (arith, less.0, Tries-left (retry now w).0 (now + (retry now w).1.1) n rest less.1)

-- A reader that starts to wait tries again at most 601 times, whatever the writers of the bucket do, if the
-- clock does not go back and a sleep lasts as long as it was asked to.
pub Tries-bounded : (clock n : ℕ) → Tries new_wait clock n → n ≤ 601
Tries-bounded clock n tries = omega (arith, Tries-left new_wait clock n tries (omega arith))
