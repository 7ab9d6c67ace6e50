-- ===== src/Seqlock.antt =====
-- src/core/directory.hpp: `SeqlockReadWait`, the pacing of a reader that waits for the writer of a
-- bucket. Times are nanoseconds of the steady clock, and a call takes the reading that it makes. The
-- spins and the yield between two loads of the version have no state.
pub mod Pacing
pub mod Protocol
pub mod Consistent
pub mod Holder
pub mod Expiry
pub mod Watch
use cyclone_cache.Common.{
  ℕ, ◌+◌, ◌-◌, ◌*◌, min, Bool, true, false, not, ◌||◌, ltb, leb, ◌==◌, if◌then◌else◌,
}

abbrev pub fast_attempts : ℕ
fast_attempts = 100

abbrev pub read_budget : ℕ
read_budget = 5000000

abbrev pub fast_phase_cap : ℕ
fast_phase_cap = 500000

abbrev pub first_sleep : ℕ
first_sleep = 10000

abbrev pub max_sleep : ℕ
max_sleep = 1000000

-- `step` is the next sleep of the backoff.
pub record SeqlockReadWait : Type 0 where
  pub attempts : ℕ
  pub fast_started : Bool
  pub fast_start : ℕ
  pub deadline : ℕ
  pub step : ℕ

abbrev pub new_wait : SeqlockReadWait
new_wait = record {
  attempts = 0;
  fast_started = false;
  fast_start = 0;
  deadline = 0;
  step = first_sleep;
}

-- `SleepBackoff::sleep`: how long it sleeps, and the step after it.
unfoldable pub sleep_for : ℕ → ℕ → ℕ → ℕ
sleep_for now deadline step = min (deadline - now) step

unfoldable pub next_step : ℕ → ℕ
next_step step = if ltb step max_sleep then step * 2 else step

-- The result is whether to try again, and how long the call slept.
unfoldable pub slept : ℕ → SeqlockReadWait → SeqlockReadWait × (Bool × ℕ)
slept now w = (record w { step = next_step w.step }, (true, sleep_for now w.deadline w.step))

unfoldable pub timed_retry : ℕ → SeqlockReadWait → SeqlockReadWait × (Bool × ℕ)
timed_retry now w =
    if w.attempts == fast_attempts
    then slept now (record w { attempts = w.attempts + 1; deadline = now + read_budget })
    else if leb w.deadline now
    then (w, (false, 0))
    else slept now w

unfoldable pub retry : ℕ → SeqlockReadWait → SeqlockReadWait × (Bool × ℕ)
retry now w =
    if ltb w.attempts fast_attempts
    then (record w { attempts = w.attempts + 1 }, (true, 0))
    else timed_retry now w

-- The end of an attempt that saw no even version: past the cap, the fast phase is over.
unfoldable pub give_up_fast : ℕ → SeqlockReadWait → SeqlockReadWait
give_up_fast now w =
    if ltb fast_attempts w.attempts
    then w
    else if not w.fast_started
    then record w { fast_started = true; fast_start = now }
    else if ltb fast_phase_cap (now - w.fast_start)
    then record w { attempts = fast_attempts }
    else w
