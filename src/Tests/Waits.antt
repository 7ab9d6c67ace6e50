-- ===== src/Tests/Waits.antt =====
-- The readers of a bucket and the waiters for a lock on small inputs.
use cyclone_cache.Common.{ℕ, zero, suc, ◌+◌, List, ◌≡◌, ◌≤◌, refl, [], ◌∷◌, length, take, arith}
use cyclone_cache.Directory.Entry.{DirEntry}
use cyclone_cache.Seqlock.{new_wait, retry, give_up_fast}
use cyclone_cache.Seqlock.Pacing.{Tries, stop, no_even, again, Tries-bounded}
use cyclone_cache.Seqlock.Protocol.{
  World, idle, copying, accepted, begin_bucket_write, store_entry, end_bucket_write, load_version,
  copy_entry, accept, Reach, at_start, then_step,
}
use cyclone_cache.Seqlock.Consistent.{Stood, accepted-Stood}
use cyclone_cache.Seqlock.Holder.{
  wait, timed_wait, expired, confirm_for, new_lock_wait, new_holder, seen_now, holder_gone,
}
use cyclone_cache.Seqlock.Watch.{Call, waited, after, Since, expired-Since}

-- A try, an attempt that saw no even version, and another try.
second_attempt : Tries new_wait 0 2
unfolding retry give_up_fast
second_attempt =
    again new_wait 0 7 1 (omega arith) refl
      (no_even _ 7 9 1 (omega arith) (again _ 9 20 0 (omega arith) refl (stop _ _)))

Tries-bounded_example : 2 ≤ 601
Tries-bounded_example = Tries-bounded 0 2 second_attempt

abbrev entry : ℕ → DirEntry
entry n = record { w0 = n; w1 = 0; w2 = 0; w3 = 0; w4 = 0 }

abbrev quiet : World
quiet = record {
  bucket = entry 1 ∷ entry 2 ∷ [];
  bumps = 4;
  reader = idle;
  seen_bumps = 0;
  seen = [];
}

-- The bucket is written, the reader copies its first entry and is accepted.
abbrev written : World
written = record quiet { bucket = entry 9 ∷ entry 2 ∷ []; bumps = 6 }

abbrev finished : World
finished = record written {
  reader = accepted (entry 9 ∷ []);
  seen_bumps = 6;
  seen = entry 9 ∷ entry 2 ∷ [];
}

abbrev begun : World
begun = record quiet { bumps = 5 }

abbrev stored : World
stored = record begun { bucket = entry 9 ∷ entry 2 ∷ [] }

abbrev loaded : World
loaded = record written { reader = copying 6 []; seen_bumps = 6; seen = entry 9 ∷ entry 2 ∷ [] }

abbrev copied : World
copied = record loaded { reader = copying 6 (entry 9 ∷ []) }

run : Reach quiet finished
run =
    then_step copied finished
      (then_step loaded copied
        (then_step written loaded
          (then_step stored written
            (then_step begun stored (then_step quiet begun at_start (begin_bucket_write quiet refl))
              (store_entry begun 0 (entry 9) refl))
            (end_bucket_write stored refl))
          (load_version written refl))
        (copy_entry loaded 6 [] (entry 9) refl refl))
      (accept copied 6 (entry 9 ∷ []) refl refl)

accepted-Stood_example :
    (entry 9 ∷ [] ≡ take (length (entry 9 ∷ [])) finished.seen)
    × Stood quiet finished run finished.seen
accepted-Stood_example = accepted-Stood quiet finished run (entry 9 ∷ []) refl (omega arith) refl

-- A waiter that sees its holder at 1000, and at 150000 starts to confirm.
abbrev polled : ℕ → List Call → List Call
polled zero calls = calls
polled (suc n) calls = waited 150000 150000 77 ∷ polled n calls

abbrev watched : List Call
watched = polled 127 (waited 1000 1000 77 ∷ [])

expired_run : (wait 2150000 0 77 (after 100000 0 watched)).1 ≡ expired
unfolding wait timed_wait after new_lock_wait new_holder seen_now holder_gone
expired_run = refl

expired-Since_example : (t : ℕ) × Since 77 t watched × (t + 100000 + confirm_for ≤ 2150000)
expired-Since_example = expired-Since 100000 0 watched 2150000 0 77 expired_run
