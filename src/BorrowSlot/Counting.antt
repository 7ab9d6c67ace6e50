-- ===== src/BorrowSlot/Counting.antt =====
-- src/core/mmap_directory.hpp: how the operations of `borrow_slot` count.
use cyclone_cache.Common.{
  ℕ, ◌+◌, ◌-◌, ◌%◌, ◌^◌, ◌<◌, ◌≡◌, ◌≢◌, refl, sym, ◌∙◌, ◌||◌, true, false, ◌==◌, arith, inl, inr,
  not, if◌then◌else◌, Bool-cases,
}
use cyclone_cache.BorrowSlot.{generation_of, count_of, pack_of, acquire, release, force_reset}

pub generation_of-pack_of :
    (g c : ℕ)
    → g < 2 ^ 8
    → (generation_of (pack_of g c) ≡ g) × (count_of (pack_of g c) ≡ c % 2 ^ 24)
unfolding generation_of count_of pack_of
generation_of-pack_of g c h = (omega arith, omega arith)

generation_of-lt : (slot : ℕ) → generation_of slot < 2 ^ 8
unfolding generation_of
generation_of-lt slot = omega arith

pub count_of-lt : (slot : ℕ) → count_of slot < 2 ^ 24
unfolding count_of
count_of-lt slot = omega arith

-- An acquire that counts adds one and keeps the generation, and one that does not leaves the word.
pub acquire_lem :
    (slot : ℕ)
    → ((acquire slot).1.generation ≡ generation_of slot)
      × (generation_of (acquire slot).0 ≡ generation_of slot)
      × (count_of (acquire slot).0
          ≡ (if (acquire slot).1.counted then count_of slot + 1 else count_of slot))
unfolding acquire
acquire_lem slot = elim (Bool-cases (count_of slot == 2 ^ 24 - 1)) [
  | inl full ↦ rw full (refl, refl, refl)
  | inr room ↦ rw room (
      let packed =
        generation_of-pack_of (generation_of slot) (count_of slot + 1) (generation_of-lt slot) in
      (refl, packed.0, ground (arith, packed.1, count_of-lt slot)))
]

-- A release counts down one borrow of its own generation, and leaves any other word.
pub release_lem :
    (g slot : ℕ)
    → (generation_of (release g slot) ≡ generation_of slot)
      × (count_of (release g slot)
          ≡ (if generation_of slot == g then count_of slot - 1 else count_of slot))
unfolding release
release_lem g slot = elim (Bool-cases (generation_of slot == g)) [
  | inl same ↦ elim (Bool-cases (count_of slot == 0)) [
    | inl none_left ↦ rw (same, none_left) (refl, ground arith)
    | inr some_left ↦
        let own : generation_of slot ≡ g = ground arith in
        let packed =
          generation_of-pack_of (generation_of slot) (count_of slot - 1) (generation_of-lt slot) in
        rw (same, some_left, sym own) (packed.0, omega (arith, packed.1, count_of-lt slot))
  ]
  | inr other ↦ rw other (refl, refl)
]

-- A word is its generation and its count.
word_halves : (slot : ℕ) → slot < 2 ^ 32 → pack_of (generation_of slot) (count_of slot) ≡ slot
unfolding pack_of generation_of count_of
word_halves slot h = omega arith

same_word :
    (v w : ℕ)
    → v < 2 ^ 32
    → w < 2 ^ 32
    → generation_of v ≡ generation_of w
    → count_of v ≡ count_of w
    → v ≡ w
unfolding generation_of count_of
same_word v w hv hw g c = omega arith

pack_of-lt : (g c : ℕ) → pack_of g c < 2 ^ 32
unfolding pack_of
pack_of-lt g c = omega arith

acquire-lt : (slot : ℕ) → slot < 2 ^ 32 → (acquire slot).0 < 2 ^ 32
unfolding acquire
acquire-lt slot h = elim (Bool-cases (count_of slot == 2 ^ 24 - 1)) [
  | inl full ↦ rw full h
  | inr room ↦ rw room (pack_of-lt _ _)
]

release-lt : (g slot : ℕ) → slot < 2 ^ 32 → (release g slot) < 2 ^ 32
unfolding release
release-lt g slot h = elim (Bool-cases (not (generation_of slot == g) || count_of slot == 0)) [
  | inl kept ↦ rw kept h
  | inr dropped ↦ rw dropped (pack_of-lt _ _)
]

-- A counted borrow that is released leaves the word as it was.
pub release-acquire :
    (slot : ℕ)
    → slot < 2 ^ 32
    → (acquire slot).1.counted ≡ true
    → release (acquire slot).1.generation (acquire slot).0 ≡ slot
release-acquire slot h counted =
    let got = acquire_lem slot in
    let held = (acquire slot).0 in
    let back = release_lem (acquire slot).1.generation held in
    let own : (generation_of held == (acquire slot).1.generation) ≡ true =
      ground (arith, got.0, got.1) in
    same_word _ slot (release-lt (acquire slot).1.generation held (acquire-lt slot h)) h
      (back.0 ∙ got.1) (ground (arith, back.1, own, got.2, counted))

force_reset_lem :
    (slot : ℕ)
    → count_of slot ≢ 0
    → (count_of (force_reset slot).0 ≡ 0)
      × (generation_of (force_reset slot).0 ≢ generation_of slot)
unfolding force_reset
force_reset_lem slot held =
    let some_left : (count_of slot == 0) ≡ false = ground arith in
    let packed = generation_of-pack_of ((generation_of slot + 1) % 2 ^ 8) 0 (omega arith) in
    rw some_left
      (omega (arith, packed.1), λ same. omega (arith, packed.0, same, generation_of-lt slot))

release_other : (g slot : ℕ) → generation_of slot ≢ g → release g slot ≡ slot
unfolding release
release_other g slot other =
    let differ : (generation_of slot == g) ≡ false = ground arith in rw differ refl

-- After a forced reset no borrow counts, and a borrow that was counted before cannot count down what is counted since.
pub release-force_reset :
    (slot : ℕ)
    → count_of slot ≢ 0
    → let w = (force_reset slot).0 in
      (count_of w ≡ 0)
      × (release (generation_of slot) w ≡ w)
      × (release (generation_of slot) (acquire w).0 ≡ (acquire w).0)
release-force_reset slot held =
    let w = (force_reset slot).0 in
    let cleared = force_reset_lem slot held in
    (
      cleared.0,
      release_other (generation_of slot) w cleared.1,
      release_other (generation_of slot) (acquire w).0
          (λ same. cleared.1 (sym (acquire_lem w).1 ∙ same)),
    )
