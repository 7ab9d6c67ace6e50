-- ===== src/Directory/Entry/Words.antt =====
-- The getters and setters of `DirEntry` as arithmetic on its words.
use native.Mathlib.Nat.{one-le-pow}
use cyclone_cache.Common.{
  ℕ, ◌+◌, ◌-◌, ◌*◌, ◌/◌, ◌%◌, ◌^◌, ◌<◌, bit_and, Bool, true, false, ◌≡◌, arith, ◌==◌, if◌then◌else◌,
}
use cyclone_cache.Common.Bits.{
  bit_and-split, bit_or-split, bit_and-low, bit_and-ones, bit_or-low, bit_or-high, bit_and-zero,
  bit_or-zero,
}
use cyclone_cache.Directory.Entry.{
  DirEntry, offset, set_offset, big, set_big, size, set_size, tag, set_tag, phase, set_phase, head,
  set_head, pinned, set_pinned,
}

-- Every word is a 16-bit number.
pub record IsPacked (e : DirEntry) : Type 0 where
  pub w0 : e.w0 < 2 ^ 16
  pub w1 : e.w1 < 2 ^ 16
  pub w2 : e.w2 < 2 ^ 16
  pub w3 : e.w3 < 2 ^ 16
  pub w4 : e.w4 < 2 ^ 16

-- `w & (ones << k)` for a word of 16 bits drops the low bits.
keep_high : (w k m : ℕ) → w / 2 ^ k < 2 ^ m → bit_and w ((2 ^ m - 1) * 2 ^ k) ≡ w / 2 ^ k * 2 ^ k
keep_high w k m h = ground (
  arith,
  one-le-pow k 2,
  bit_and-split k (w / 2 ^ k) (w % 2 ^ k) (2 ^ m - 1) 0,
  bit_and-ones m (w / 2 ^ k),
  bit_and-zero (w % 2 ^ k),
)

-- Clearing `j` bits at position `k` keeps the bits above and below.
keep_around :
    (w k j m : ℕ)
    → w / 2 ^ k / 2 ^ j < 2 ^ m
    → bit_and w ((2 ^ m - 1) * 2 ^ j * 2 ^ k + (2 ^ k - 1))
      ≡ w / 2 ^ k / 2 ^ j * 2 ^ j * 2 ^ k + w % 2 ^ k
keep_around w k j m h = ground (
  arith,
  one-le-pow k 2,
  bit_and-split k (w / 2 ^ k) (w % 2 ^ k) ((2 ^ m - 1) * 2 ^ j) (2 ^ k - 1),
  keep_high (w / 2 ^ k) j m h,
  bit_and-ones k (w % 2 ^ k),
)

module _ (e : DirEntry) (p : IsPacked e) where
  pub offset_words : offset e ≡ e.w0 + e.w1 % 256 * 2 ^ 16 + e.w4 * 2 ^ 24
  unfolding offset
  offset_words = ground (
    arith,
    bit_and-low 8 e.w1,
    bit_or-high 16 e.w0 (e.w1 % 256),
    bit_or-high 24 (e.w0 + e.w1 % 256 * 2 ^ 16) e.w4,
  )

  pub set_offset_words :
      (o : ℕ)
      → set_offset o e ≡ record e {
        w0 = o % 2 ^ 16;
        w1 = e.w1 / 256 * 256 + o / 2 ^ 16 % 256;
        w4 = o / 2 ^ 24 % 2 ^ 16;
      }
  unfolding set_offset
  set_offset_words o = ground (
    arith,
    bit_and-low 16 o,
    bit_and-low 8 (o / 2 ^ 16),
    bit_and-low 16 (o / 2 ^ 24),
    keep_high e.w1 8 8 (omega arith),
    bit_or-low 8 (e.w1 / 256) (o / 2 ^ 16 % 256),
  )

  pub big_words : big e ≡ e.w1 / 256 % 4
  unfolding big
  big_words = omega (arith, bit_and-low 2 (e.w1 / 256))

  pub set_big_words :
      (b : ℕ) → set_big b e ≡ record e { w1 = e.w1 / 1024 * 1024 + b % 4 * 256 + e.w1 % 256 }
  unfolding set_big
  set_big_words b = ground (
    arith,
    bit_and-low 2 b,
    keep_around e.w1 8 2 6 (omega arith),
    bit_or-split 8 (e.w1 / 1024 * 4) (e.w1 % 256) (b % 4) 0,
    bit_or-zero (e.w1 % 256),
    bit_or-low 2 (e.w1 / 1024) (b % 4),
  )

  pub size_words : size e ≡ e.w1 / 1024
  unfolding size
  size_words = omega (arith, bit_and-low 6 (e.w1 / 1024))

  pub set_size_words : (s : ℕ) → set_size s e ≡ record e { w1 = s % 64 * 1024 + e.w1 % 1024 }
  unfolding set_size
  set_size_words s =
      ground (arith, bit_and-low 6 s, bit_and-low 10 e.w1, bit_or-high 10 (e.w1 % 1024) (s % 64))

  pub tag_words : tag e ≡ e.w2 % 4096
  unfolding tag
  tag_words = bit_and-low 12 e.w2

  pub set_tag_words : (t : ℕ) → set_tag t e ≡ record e { w2 = e.w2 / 4096 * 4096 + t % 4096 }
  unfolding set_tag
  set_tag_words t = ground (
    arith,
    bit_and-low 12 t,
    keep_high e.w2 12 4 (omega arith),
    bit_or-low 12 (e.w2 / 4096) (t % 4096),
  )

  pub phase_words : phase e ≡ (e.w2 / 4096 % 2 == 1)
  unfolding phase
  phase_words = ground (arith, bit_and-low 1 (e.w2 / 4096))

  pub head_words : head e ≡ (e.w2 / 8192 % 2 == 1)
  unfolding head
  head_words = ground (arith, bit_and-low 1 (e.w2 / 8192))

  pub pinned_words : pinned e ≡ (e.w2 / 16384 % 2 == 1)
  unfolding pinned
  pinned_words = ground (arith, bit_and-low 1 (e.w2 / 16384))

  pub set_phase_words :
      (b : Bool)
      → set_phase b e ≡ record e { w2 = e.w2 / 8192 * 8192 + (if b then 4096 else 0) + e.w2 % 4096 }
  unfolding set_phase
  set_phase_words true = ground (
    arith,
    keep_around e.w2 12 1 3 (omega arith),
    bit_or-split 12 (e.w2 / 8192 * 2) (e.w2 % 4096) 1 0,
    bit_or-zero (e.w2 % 4096),
    bit_or-low 1 (e.w2 / 8192) 1,
  )
  set_phase_words false =
      ground (
        arith,
        keep_around e.w2 12 1 3 (omega arith),
        bit_or-zero (e.w2 / 8192 * 8192 + e.w2 % 4096),
      )

  pub set_head_words :
      (b : Bool)
      → set_head b e
        ≡ record e { w2 = e.w2 / 16384 * 16384 + (if b then 8192 else 0) + e.w2 % 8192 }
  unfolding set_head
  set_head_words true = ground (
    arith,
    keep_around e.w2 13 1 2 (omega arith),
    bit_or-split 13 (e.w2 / 16384 * 2) (e.w2 % 8192) 1 0,
    bit_or-zero (e.w2 % 8192),
    bit_or-low 1 (e.w2 / 16384) 1,
  )
  set_head_words false = ground (
    arith,
    keep_around e.w2 13 1 2 (omega arith),
    bit_or-zero (e.w2 / 16384 * 16384 + e.w2 % 8192),
  )

  pub set_pinned_words :
      (b : Bool)
      → set_pinned b e
        ≡ record e { w2 = e.w2 / 32768 * 32768 + (if b then 16384 else 0) + e.w2 % 16384 }
  unfolding set_pinned
  set_pinned_words true = ground (
    arith,
    keep_around e.w2 14 1 1 (omega arith),
    bit_or-split 14 (e.w2 / 32768 * 2) (e.w2 % 16384) 1 0,
    bit_or-zero (e.w2 % 16384),
    bit_or-low 1 (e.w2 / 32768) 1,
  )
  set_pinned_words false = ground (
    arith,
    keep_around e.w2 14 1 1 (omega arith),
    bit_or-zero (e.w2 / 32768 * 32768 + e.w2 % 16384),
  )
