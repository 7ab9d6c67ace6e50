-- ===== src/Seqlock/Watch.antt =====
-- src/core/directory.hpp: the calls that a waiter gets from its start on, the newest first.
use cyclone_cache.Common.{
  ℕ, ◌+◌, ◌≤◌, ◌≡◌, ◌%◌, ◌^◌, refl, inl, inr, true, List, [], ◌∷◌, not, ◌&&◌, ltb, leb, ◌==◌,
  Bool-cases, if-both, subst, arith,
}
use cyclone_cache.Seqlock.Holder.{
  LockHolderWait, WaitStep, expired, confirm_for, polls_per_clock_read, new_lock_wait, holder_gone,
  restart, seen_now, new_holder, timed_wait, wait,
}
use cyclone_cache.Seqlock.Expiry.{IsTimed, wait-Expires}

-- `wait`, with its readings of the clock and the holder, and `restart`.
pub data Call : Type 0 where
  waited : ℕ → ℕ → ℕ → Call
  restarted : ℕ → Call

-- The waiter after the calls.
unfoldable pub after : ℕ → ℕ → List Call → LockHolderWait
after budget cap [] = new_lock_wait budget cap
after budget cap (waited now woken holder ∷ calls) =
    (wait now woken holder (after budget cap calls)).0
after budget cap (restarted now ∷ calls) = restart now (after budget cap calls)

-- From the call that read `t` to the newest, each is a `wait` for this holder.
pub data Since (holder t : ℕ) : List Call → Type 0 where
  from : (woken : ℕ) (calls : List Call) → Since holder t (waited t woken holder ∷ calls)
  still :
      (now woken : ℕ) (calls : List Call)
      → Since holder t calls
      → Since holder t (waited now woken holder ∷ calls)

-- The holder in sight has been there since the waiter says that it first saw it.
abbrev InSight : LockHolderWait → List Call → Type 0
InSight w calls = w.started ≡ true → Since w.holder w.first_seen calls

-- A timed wait leaves the sight of the holder as it is.
timed_wait-sight :
    (now woken : ℕ) (w : LockHolderWait)
    → ((timed_wait now woken w).0.holder ≡ w.holder)
      × ((timed_wait now woken w).0.first_seen ≡ w.first_seen)
unfolding timed_wait
timed_wait-sight now woken w =
    let P : LockHolderWait × WaitStep → Type 0 =
      λ r. (r.0.holder ≡ w.holder) × (r.0.first_seen ≡ w.first_seen) in
    if-both P (ltb now w.spin_until) _ _ (refl, refl)
      (if-both P (leb w.deadline now) _ _
        (if-both P (not w.confirming) _ _ (refl, refl) (refl, refl)) (refl, refl))

new_holder-InSight :
    (now woken holder : ℕ) (w : LockHolderWait) (calls : List Call)
    → InSight (new_holder now holder w).0 (waited now woken holder ∷ calls)
unfolding new_holder seen_now
new_holder-InSight now woken holder w calls =
    let w' = holder_gone now w in
    if-both (λ (r : LockHolderWait × WaitStep). InSight r.0 (waited now woken holder ∷ calls))
      (not (w'.cap == 0) && leb w'.cap w'.changed) _ _ (λ no. absurd (ground arith))
      (λ on. from woken calls)

wait-InSight :
    (now woken holder : ℕ) (w : LockHolderWait) (calls : List Call)
    → InSight w calls
    → InSight (wait now woken holder w).0 (waited now woken holder ∷ calls)
unfolding wait
wait-InSight now woken holder w calls sight =
    let polled = record w { polls = (w.polls + 1) % 2 ^ 32 } in
    let P : LockHolderWait × WaitStep → Type 0 =
      λ r. InSight r.0 (waited now woken holder ∷ calls) in
    elim (Bool-cases (w.started && holder == w.holder)) [
      | inr other ↦ rw other (new_holder-InSight now woken holder w calls)
      | inl same ↦
          let on : w.started ≡ true = ground arith in
          let holder_of : w.holder ≡ holder = ground arith in
          let longer : Since w.holder w.first_seen (waited now woken holder ∷ calls) =
            rw holder_of (
              still now woken calls
                (subst (λ (h : ℕ). Since h w.first_seen calls) holder_of (sight on))) in
          let kept = timed_wait-sight now woken polled in
          rw same (
            if-both P (not (polled.polls % polls_per_clock_read == 0)) _ _ (λ _. longer)
              (λ _. rw (kept.0, kept.1) longer))
    ]

restart-InSight : (now : ℕ) (w : LockHolderWait) (calls : List Call) → InSight (restart now w) calls
unfolding restart
restart-InSight now w calls impossible = absurd (ground arith)

restart-IsTimed :
    (now budget : ℕ) (w : LockHolderWait) → IsTimed budget w → IsTimed budget (restart now w)
unfolding restart holder_gone
restart-IsTimed now budget w timed = record {
  budget_of =
      if-both (λ (v : LockHolderWait). v.budget ≡ budget) w.started _ _ timed.budget_of
        timed.budget_of;
  deadline_of = λ no. absurd (ground arith);
  confirmation = λ no c. absurd (ground arith);
}

after_lem :
    (budget cap : ℕ) (calls : List Call)
    → IsTimed budget (after budget cap calls) × InSight (after budget cap calls) calls
unfolding after new_lock_wait
after_lem budget cap [] = (
  record {
    budget_of = refl;
    deadline_of = λ no. absurd (ground arith);
    confirmation = λ no c. absurd (ground arith);
  },
  λ no. absurd (ground arith),
)
after_lem budget cap (waited now woken holder ∷ calls) =
    let w = after budget cap calls in
    let (timed, sight) = after_lem budget cap calls in
    ((wait-Expires now woken holder budget w timed).0, wait-InSight now woken holder w calls sight)
after_lem budget cap (restarted now ∷ calls) =
    let w = after budget cap calls in
    let (timed, sight) = after_lem budget cap calls in
    (restart-IsTimed now budget w timed, restart-InSight now w (restarted now ∷ calls))

-- A waiter that was created with a budget and any cap, and got any calls, answers that a holder has
-- expired only if it has waited for this same holder, with no other holder and no restart between,
-- since a call whose reading of the clock lies the whole budget and the whole confirmation back.
pub expired-Since :
    (budget cap : ℕ) (calls : List Call) (now woken holder : ℕ)
    → (wait now woken holder (after budget cap calls)).1 ≡ expired
    → (t : ℕ) × Since holder t calls × (t + budget + confirm_for ≤ now)
expired-Since budget cap calls now woken holder answer =
    let w = after budget cap calls in
    let (timed, sight) = after_lem budget cap calls in
    let (on, holder_of, long) = (wait-Expires now woken holder budget w timed).1 answer in
    (w.first_seen, subst (λ (h : ℕ). Since h w.first_seen calls) holder_of (sight on), long)
