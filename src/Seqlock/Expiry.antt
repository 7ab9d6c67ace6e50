-- ===== src/Seqlock/Expiry.antt =====
-- src/core/directory.hpp: the times of a waiter in one call.
use cyclone_cache.Common.{
  ℕ, ◌+◌, ◌≤◌, ◌≡◌, ◌%◌, ◌^◌, refl, ◌∙◌, inl, inr, true, not, ◌&&◌, ltb, leb, ◌==◌, Bool-cases,
  if-both, arith,
}
use cyclone_cache.Seqlock.Holder.{
  LockHolderWait, WaitStep, expired, confirm_for, polls_per_clock_read, holder_gone, seen_now,
  new_holder, timed_wait, wait,
}

-- The times of a waiter that has a holder in sight; `budget` is the waiter's.
pub record IsTimed (budget : ℕ) (w : LockHolderWait) : Type 0 where
  pub budget_of : w.budget ≡ budget
  pub deadline_of : w.started ≡ true → w.deadline ≡ w.first_seen + budget
  pub confirmation :
      w.started ≡ true → w.confirming ≡ true → w.deadline + confirm_for ≤ w.spin_until

-- What an answer says.
abbrev pub Expires : ℕ → ℕ → LockHolderWait → LockHolderWait × WaitStep → ℕ → Type 0
Expires now holder w r budget =
    IsTimed budget r.0
    × (r.1 ≡ expired
        → (w.started ≡ true) × (w.holder ≡ holder) × (w.first_seen + budget + confirm_for ≤ now))

timed_wait-Expires :
    (now woken budget : ℕ) (w : LockHolderWait)
    → IsTimed budget w
    → w.started ≡ true
    → Expires now w.holder w (timed_wait now woken w) budget
unfolding timed_wait
timed_wait-Expires now woken budget w timed on = elim (Bool-cases (ltb now w.spin_until)) [
  | inl spins ↦ rw spins (timed, λ no. absurd (ground arith))
  | inr awake ↦ elim (Bool-cases (leb w.deadline now)) [
    | inl passed ↦ elim (Bool-cases (not w.confirming)) [
      | inl first ↦
          rw (awake, passed, first)
            (
              record {
                budget_of = timed.budget_of;
                deadline_of = timed.deadline_of;
                confirmation = λ s c. ground arith;
              },
              λ no. absurd (ground arith),
            )
      | inr confirmed ↦
          rw (awake, passed, confirmed)
            (
              timed,
              λ e. (
                on,
                refl,
                ground (arith, timed.deadline_of on, timed.confirmation on (ground arith)),
              ),
            )
    ]
    | inr early ↦
        rw (awake, early)
          (
            record {
              budget_of = timed.budget_of;
              deadline_of = timed.deadline_of;
              confirmation = λ s c. absurd (ground (arith, timed.confirmation on c));
            },
            λ no. absurd (ground arith),
          )
  ]
]

holder_gone-budget : (now : ℕ) (w : LockHolderWait) → (holder_gone now w).budget ≡ w.budget
unfolding holder_gone
holder_gone-budget now w =
    if-both (λ (v : LockHolderWait). v.budget ≡ w.budget) w.started _ _ refl refl

new_holder-Expires :
    (now holder budget : ℕ) (w : LockHolderWait)
    → IsTimed budget w
    → Expires now holder w (new_holder now holder w) budget
unfolding new_holder seen_now
new_holder-Expires now holder budget w timed =
    let w' = holder_gone now w in
    let same : w'.budget ≡ budget = holder_gone-budget now w ∙ timed.budget_of in
    let P : LockHolderWait × WaitStep → Type 0 = λ r. Expires now holder w r budget in
    if-both P (not (w'.cap == 0) && leb w'.cap w'.changed) _ _
      (
        record {
          budget_of = same;
          deadline_of = λ no. absurd (ground arith);
          confirmation = λ no c. absurd (ground arith);
        },
        λ no. absurd (ground arith),
      )
      (
        record {
          budget_of = same;
          deadline_of = λ s. omega (arith, same);
          confirmation = λ s no. absurd (ground arith);
        },
        λ no. absurd (ground arith),
      )

pub wait-Expires :
    (now woken holder budget : ℕ) (w : LockHolderWait)
    → IsTimed budget w
    → Expires now holder w (wait now woken holder w) budget
unfolding wait
wait-Expires now woken holder budget w timed =
    let polled = record w { polls = (w.polls + 1) % 2 ^ 32 } in
    let timed' : IsTimed budget polled = record {
      budget_of = timed.budget_of;
      deadline_of = timed.deadline_of;
      confirmation = timed.confirmation;
    } in
    let P : LockHolderWait × WaitStep → Type 0 = λ r. Expires now holder w r budget in
    elim (Bool-cases (w.started && holder == w.holder)) [
      | inr other ↦ rw other (new_holder-Expires now holder budget w timed)
      | inl same ↦
          let on : w.started ≡ true = ground arith in
          let holder_of : w.holder ≡ holder = ground arith in
          let answer = timed_wait-Expires now woken budget polled timed' on in
          rw same (
            if-both P (not (polled.polls % polls_per_clock_read == 0)) _ _
              (timed', λ no. absurd (ground arith))
              (answer.0, λ e. (on, holder_of, (answer.1 e).2)))
    ]
