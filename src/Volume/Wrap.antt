-- ===== src/Volume/Wrap.antt =====
-- src/core/volume.cpp and src/core/mmap_directory.cpp: the steps of a wrap, and the repair of a wrap
-- whose writer died.
use cyclone_cache.Common.{ℕ, ◌+◌, ◌%◌, Bool, false, ◌&&◌, ◌||◌, not, ltb, leb, ◌==◌, if◌then◌else◌}
use cyclone_cache.Common.Words.{word_add, word_sub, word_mul}
use cyclone_cache.Volume.{Stripe, VolumeCounters, pass_of}
use cyclone_cache.Volume.Lease.{set_wrap_intent}

-- `MmapDirectory::WriteLockToken`: what the acquisition of the write lock answers.
pub record WriteLockToken : Type 0 where
  pub acquired : Bool
  pub forced_release : Bool
  pub escalated_takeover : Bool
  pub live_waits : ℕ
  pub generation : ℕ

unfoldable pub record_shared_wrap : ℕ → VolumeCounters → VolumeCounters
record_shared_wrap now k = record k {
  shared_wrap_count = word_add k.shared_wrap_count 1;
  shared_last_wrap_time_ns = now;
}

unfoldable pub record_interval : ℕ → VolumeCounters → VolumeCounters
record_interval interval k = record k {
  last_wrap_interval_ns = interval;
  min_wrap_interval_ns =
      if k.min_wrap_interval_ns == 0 || ltb interval k.min_wrap_interval_ns
      then interval
      else k.min_wrap_interval_ns;
}

unfoldable pub record_wrap : ℕ → Stripe → Stripe
record_wrap now s =
    let k =
      if s.use_mmap_directory
      then record_shared_wrap now s.counters
      else record s.counters { wrap_count = word_add s.counters.wrap_count 1 } in
    let prev = k.last_wrap_time_ns in
    let stamped = record k { last_wrap_time_ns = now } in
    record s {
      counters =
          if prev == 0 || leb now prev
          then stamped
          else record_interval (word_sub now prev) stamped;
    }

unfoldable pub set_current_phase : Bool → Stripe → Stripe
set_current_phase phase s = record s { current_phase = phase }

unfoldable pub publish_wrap_phase : ℕ → Stripe → Stripe
publish_wrap_phase new_pass s =
    let phased = set_current_phase (new_pass % 2 == 1) s in
    record phased {
      counters = record phased.counters { evictions = word_add phased.counters.evictions 1 };
    }

unfoldable pub store_exposure_gen : ℕ → Stripe → Stripe
store_exposure_gen gen s = record s { exposure_gen = gen }

-- `kIntentWrapOdd` and `kIntentWrapEven`.
abbrev pub wrap_intent_value : ℕ → ℕ
wrap_intent_value pass = if pass % 2 == 1 then 3 else 2

unfoldable pub mark_wrap_committed : ℕ → Stripe → Stripe
mark_wrap_committed new_pass s = record s { wrap_intent = wrap_intent_value new_pass }

-- The cursor drops to the start of the data area; the shared one only while the lock is still held.
unfoldable pub drop_cursor : Bool → Stripe → Stripe
drop_cursor still_held s = record s {
  write_pos = s.data_offset;
  shared_write_pos =
      if s.use_mmap_directory && still_held then s.data_offset else s.shared_write_pos;
}

-- The stores of a wrap to `pass`, in their order, up to the clear of the intent.
unfoldable pub wrap_to : ℕ → Bool → ℕ → ℕ → Stripe → Stripe
wrap_to now still_held pass gen s =
    let dropped = drop_cursor still_held (mark_wrap_committed pass s) in
    let published = store_exposure_gen gen (publish_wrap_phase pass dropped) in
    set_wrap_intent false (record_wrap now published)

unfoldable pub complete_wrap : ℕ → ℕ → Stripe → Stripe
complete_wrap now pass s =
    let n = s.chunks in
    let gen = word_add (word_mul pass (n + 1)) (if s.retain then 0 else n) in
    record_wrap now (store_exposure_gen gen (publish_wrap_phase pass s))

-- The cursor of a committed wrap is dropped again, and the pass is published if it is not out.
unfoldable pub repair_committed : ℕ → ℕ → Stripe → Stripe
repair_committed now pass s =
    let dropped = record s { write_pos = s.data_offset; shared_write_pos = s.data_offset } in
    let target_parity = if s.wrap_intent == 3 then 1 else 0 in
    if pass % 2 == target_parity then dropped else complete_wrap now (word_add pass 1) dropped

unfoldable pub repaired_pass : Stripe → ℕ → ℕ
repaired_pass s pass =
    let target_parity = if s.wrap_intent == 3 then 1 else 0 in
    if (s.wrap_intent == 2 || s.wrap_intent == 3) && not (pass % 2 == target_parity)
    then word_add pass 1
    else pass

unfoldable pub repair_wrap_state : ℕ → Stripe → Stripe
repair_wrap_state now s =
    let pass = pass_of s s.exposure_gen in
    let repaired =
      if s.wrap_intent == 2 || s.wrap_intent == 3 then repair_committed now pass s else s in
    if not s.use_mmap_directory
    then s
    else set_wrap_intent false (set_current_phase (repaired_pass s pass % 2 == 1) repaired)

unfoldable pub repair_after_forced_release : ℕ → WriteLockToken → Stripe → Stripe
repair_after_forced_release now token s =
    if token.acquired && (token.forced_release && not token.escalated_takeover)
    then repair_wrap_state now s
    else s
