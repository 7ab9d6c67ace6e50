-- ===== src/Volume/Steps.antt =====
-- src/core/volume.cpp: which part of a stripe each step of a reservation moves.
use cyclone_cache.Common.{
  ℕ, ◌+◌, ◌%◌, ◌≡◌, refl, ap, min, inl, inr, Bool, true, not, ◌||◌, ◌&&◌, leb, ◌==◌, if◌then◌else◌,
  Bool-cases, if-both,
}
use cyclone_cache.Common.Words.{word_add, word_mul}
use cyclone_cache.Volume.{Stripe, VolumeConfig, pass_of}
use cyclone_cache.Volume.Frontier.{Core, core}
use cyclone_cache.Volume.Lease.{
  lease_gate, end_deferral_episode, open_episode, forced_step, force_reset_all,
  publish_wrap_deferred_deadline, set_wrap_intent, lease_active, borrows_between, past_ceiling,
}
use cyclone_cache.Volume.Wrap.{
  WriteLockToken, wrap_to, record_wrap, publish_wrap_phase, set_current_phase, store_exposure_gen,
  drop_cursor, mark_wrap_committed, repair_wrap_state, repair_committed, complete_wrap,
}
use cyclone_cache.Volume.Reserve.{advance_frontier, advanced, count_lock, count_usurp_abort}

pub end_deferral_episode-core : (s : Stripe) → core (end_deferral_episode s) ≡ core s
unfolding end_deferral_episode publish_wrap_deferred_deadline
end_deferral_episode-core s =
    if-both (λ t. core t ≡ core s) (s.wrap_deferred_since_ns == 0) _ _ refl refl

open_episode-core :
    (config : VolumeConfig) (now : ℕ) (s : Stripe) → core (open_episode config now s) ≡ core s
unfolding open_episode publish_wrap_deferred_deadline
open_episode-core config now s =
    if-both (λ t. core t ≡ core s) (s.wrap_deferred_since_ns == 0) _ _ refl refl

forced_step-core : (s : Stripe) → core (forced_step s) ≡ core s
unfolding forced_step force_reset_all publish_wrap_deferred_deadline
forced_step-core s = refl

-- The gate moves no cursor and no generation.
pub lease_gate-core :
    (config : VolumeConfig) (now lo hi : ℕ) (episode : Bool) (s : Stripe)
    → core (lease_gate config now lo hi episode s).0 ≡ core s
unfolding lease_gate
lease_gate-core config now lo hi episode s =
    let P : Stripe × Bool → Type 0 = λ r. core r.0 ≡ core s in
    if-both P (config.lease_t_ns == 0) _ _ refl (
      if-both P
        (not (lease_active config now s) || borrows_between s.borrow_shards lo (min hi 64) 0 == 0) _
        _ (end_deferral_episode-core s)
        (if-both P (not episode) _ _ refl (
          if-both P (past_ceiling config now s) _ _ (forced_step-core s)
            (open_episode-core config now s))))

abbrev pub with_gen : ℕ → Core → Core
with_gen gen c = record c { exposure_gen = gen }

-- An advance stores the generation of its target if it lies ahead and the gate lets it pass.
pub advance_frontier-core :
    (config : VolumeConfig) (now pass from to : ℕ) (episode : Bool) (s : Stripe)
    → let r = advance_frontier config now pass from to episode s in
      core r.0 ≡ (
        if leb to from
        then core s
        else if r.1
        then with_gen (word_add (word_mul pass (s.chunks + 1)) to) (core s)
        else core s)
unfolding advance_frontier advanced set_wrap_intent store_exposure_gen
advance_frontier-core config now pass from to episode s = elim (Bool-cases (leb to from)) [
  | inl behind ↦ rw behind refl
  | inr ahead ↦
      let gate = lease_gate config now from to episode (set_wrap_intent true s) in
      let same : core gate.0 ≡ core s =
        lease_gate-core config now from to episode (set_wrap_intent true s) in
      elim (Bool-cases gate.1) [
        | inl go ↦ rw (ahead, go) (ap (with_gen (word_add (word_mul pass (s.chunks + 1)) to)) same)
        | inr stay ↦ rw (ahead, stay) same
      ]
]

pub record_wrap-core : (now : ℕ) (s : Stripe) → core (record_wrap now s) ≡ core s
unfolding record_wrap
record_wrap-core now s = refl

abbrev pub wrapped_core : Bool → ℕ → Core → Core
wrapped_core still_held gen c = record c {
  write_pos = c.data_offset;
  shared_write_pos =
      if c.use_mmap_directory && still_held then c.data_offset else c.shared_write_pos;
  exposure_gen = gen;
}

pub wrap_to-core :
    (now : ℕ) (still_held : Bool) (pass gen : ℕ) (s : Stripe)
    → core (wrap_to now still_held pass gen s) ≡ wrapped_core still_held gen (core s)
unfolding wrap_to set_wrap_intent record_wrap store_exposure_gen publish_wrap_phase
    set_current_phase drop_cursor mark_wrap_committed
wrap_to-core now still_held pass gen s = refl

pub count_lock-core : (token : WriteLockToken) (s : Stripe) → core (count_lock token s) ≡ core s
unfolding count_lock
count_lock-core token s = refl

pub count_usurp_abort-core : (s : Stripe) → core (count_usurp_abort s) ≡ core s
unfolding count_usurp_abort
count_usurp_abort-core s = refl

-- Both cursors at the start of the data area.
abbrev pub lowered_core : ℕ → Core → Core
lowered_core gen c = record c {
  write_pos = c.data_offset;
  shared_write_pos = c.data_offset;
  exposure_gen = gen;
}

abbrev pub completed_gen : Stripe → ℕ → ℕ
completed_gen s pass = word_add (word_mul pass (s.chunks + 1)) (if s.retain then 0 else s.chunks)

abbrev pub repaired_core : Bool → Bool → Bool → ℕ → Core → Core
repaired_core local step out gen c =
    if local
    then c
    else if step
    then if out then lowered_core c.exposure_gen c else lowered_core gen c
    else c

repair_committed-core :
    (now pass : ℕ) (s : Stripe)
    → core (repair_committed now pass s) ≡ (
        if pass % 2 == (if s.wrap_intent == 3 then 1 else 0)
        then lowered_core s.exposure_gen (core s)
        else lowered_core (completed_gen s (word_add pass 1)) (core s))
unfolding repair_committed complete_wrap record_wrap store_exposure_gen publish_wrap_phase
    set_current_phase
repair_committed-core now pass s =
    elim (Bool-cases (pass % 2 == (if s.wrap_intent == 3 then 1 else 0))) [
      | inl out ↦ rw out refl
      | inr waiting ↦ rw waiting refl
    ]

-- A repair moves the cursors and the generation of a stripe in a committed wrap only.
pub repair_wrap_state-core :
    (now : ℕ) (s : Stripe)
    → core (repair_wrap_state now s)
      ≡ repaired_core
          (not s.use_mmap_directory)
          (s.wrap_intent == 2 || s.wrap_intent == 3)
          (pass_of s s.exposure_gen % 2 == (if s.wrap_intent == 3 then 1 else 0))
          (completed_gen s (word_add (pass_of s s.exposure_gen) 1))
          (core s)
unfolding repair_wrap_state set_wrap_intent set_current_phase
repair_wrap_state-core now s = elim (Bool-cases (not s.use_mmap_directory)) [
  | inl local ↦ rw local refl
  | inr mmap ↦ elim (Bool-cases (s.wrap_intent == 2 || s.wrap_intent == 3)) [
    | inl wrap ↦ rw (mmap, wrap) (repair_committed-core now (pass_of s s.exposure_gen) s)
    | inr step ↦ rw (mmap, step) refl
  ]
]
