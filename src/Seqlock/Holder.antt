-- ===== src/Seqlock/Holder.antt =====
-- src/core/directory.hpp: `LockHolderWait`, the pacing of a waiter for a lock whose holder may be dead.
-- Times are nanoseconds of the steady clock; a call takes the reading that it makes and the one that it
-- makes after a sleep.
use cyclone_cache.Common.{
  ℕ, ◌+◌, ◌-◌, ◌%◌, ◌^◌, Bool, true, false, not, ◌&&◌, ltb, leb, ◌==◌, if◌then◌else◌,
}
use cyclone_cache.Seqlock.{first_sleep, next_step}

pub data WaitStep : Type 0 where
  spun slept_once expired capped : WaitStep

abbrev pub spin_for : ℕ
spin_for = 20000

abbrev pub wake_spin_for : ℕ
wake_spin_for = 5000

abbrev pub confirm_for : ℕ
confirm_for = 2000000

abbrev pub polls_per_clock_read : ℕ
polls_per_clock_read = 64

pub record LockHolderWait : Type 0 where
  pub budget : ℕ
  pub cap : ℕ
  pub changed : ℕ
  pub started : Bool
  pub confirming : Bool
  pub holder : ℕ
  pub polls : ℕ
  pub sleeps : ℕ
  pub first_seen : ℕ
  pub deadline : ℕ
  pub spin_until : ℕ
  pub step : ℕ

unfoldable pub new_lock_wait : ℕ → ℕ → LockHolderWait
new_lock_wait budget cap = record {
  budget = budget;
  cap = cap;
  changed = 0;
  started = false;
  confirming = false;
  holder = 0;
  polls = 0;
  sleeps = 0;
  first_seen = 0;
  deadline = 0;
  spin_until = 0;
  step = first_sleep;
}

-- The time that the holder before has had the lock is added up.
unfoldable pub holder_gone : ℕ → LockHolderWait → LockHolderWait
holder_gone now w = if w.started then record w { changed = w.changed + (now - w.first_seen) } else w

unfoldable pub restart : ℕ → LockHolderWait → LockHolderWait
restart now w = record (holder_gone now w) { started = false }

unfoldable pub held : ℕ → LockHolderWait → ℕ
held now w = if w.started then now - w.first_seen else 0

unfoldable pub seen_now : ℕ → ℕ → LockHolderWait → LockHolderWait
seen_now now holder w = record w {
  started = true;
  confirming = false;
  holder = holder;
  polls = 0;
  first_seen = now;
  deadline = now + w.budget;
  spin_until = now + spin_for;
  step = first_sleep;
}

unfoldable pub new_holder : ℕ → ℕ → LockHolderWait → LockHolderWait × WaitStep
new_holder now holder w =
    let w' = holder_gone now w in
    if not (w'.cap == 0) && leb w'.cap w'.changed
    then (record w' { started = false }, capped)
    else (seen_now now holder w', spun)

unfoldable pub timed_wait : ℕ → ℕ → LockHolderWait → LockHolderWait × WaitStep
timed_wait now woken w =
    if ltb now w.spin_until
    then (w, spun)
    else if leb w.deadline now
    then if not w.confirming
      then (record w { confirming = true; spin_until = now + confirm_for }, spun)
      else (w, expired)
    else (
      record w {
        sleeps = (w.sleeps + 1) % 2 ^ 32;
        spin_until = woken + wake_spin_for;
        step = next_step w.step;
      },
      slept_once,
    )

unfoldable pub wait : ℕ → ℕ → ℕ → LockHolderWait → LockHolderWait × WaitStep
wait now woken holder w =
    let polled = record w { polls = (w.polls + 1) % 2 ^ 32 } in
    if w.started && holder == w.holder
    then if not (polled.polls % polls_per_clock_read == 0)
      then (polled, spun)
      else timed_wait now woken polled
    else new_holder now holder w
