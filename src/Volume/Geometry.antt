-- ===== src/Volume/Geometry.antt =====
-- src/core/volume.hpp and src/core/volume.cpp: the chunks cover the data area.
use native.Mathlib.Nat.{lt-div-mul-add, div-mul-le_self, lt_of_mul-lt-mul_right}
use cyclone_cache.Common.{
  ℕ, ◌+◌, ◌-◌, ◌*◌, ◌/◌, ◌%◌, ◌^◌, ◌<◌, ◌≤◌, ◌≡◌, ◌⊎◌, refl, inl, inr, false, ltb, ◌==◌,
  if◌then◌else◌, Bool-cases, arith,
}
use cyclone_cache.Common.Words.{word_add, word_sub}
use cyclone_cache.Volume.{round_up_8, chunk_bytes, clamp_chunks, retention_geometry}

larger : (q m : ℕ) → let v = if ltb q m then m else q in (m ≤ v) × (q ≤ v) × ((v ≡ m) ⊎ (v ≡ q))
larger q m = elim (Bool-cases (ltb q m)) [
  | inl less ↦ rw less (ground arith, ground arith, inl refl)
  | inr not_less ↦ rw not_less (ground arith, ground arith, inr refl)
]

chunk_bytes_lem :
    (a : ℕ)
    → a < 2 ^ 63
    → (2 ^ 20 ≤ chunk_bytes a)
      × (a ≤ 64 * chunk_bytes a)
      × (chunk_bytes a % 8 ≡ 0)
      × (chunk_bytes a < 2 ^ 62)
unfolding chunk_bytes
chunk_bytes_lem a small =
    let q = round_up_8 (word_add a 63 / 64) in
    let bounds = larger q (2 ^ 20) in
    elim bounds.2 [
      | inl least ↦ (bounds.0, omega (arith, bounds.1), omega (arith, least), omega (arith, least))
      | inr own ↦ (bounds.0, omega (arith, bounds.1), omega (arith, own), omega (arith, own))
    ]

-- The number of chunks of `q` bytes that cover `a` bytes needs no clamping.
chunk_count :
    (a q : ℕ)
    → 0 < a
    → a < 2 ^ 63
    → 0 < q
    → a ≤ 64 * q
    → q < 2 ^ 62
    → let n = clamp_chunks (word_sub (word_add a q) 1 / q) in
      (0 < n) × (n ≤ 64) × (a ≤ n * q) × (n * q < a + q)
unfolding clamp_chunks
chunk_count a q pos small q_pos cover q_small =
    let t = (a + q - 1) / q in
    let above : a + q - 1 < t * q + q = lt-div-mul-add q_pos in
    let below : t * q ≤ a + q - 1 = div-mul-le_self (a + q - 1) q in
    let most : t < 65 = lt_of_mul-lt-mul_right q (omega (arith, below)) in
    let least : 0 < t = lt_of_mul-lt-mul_right q (omega (arith, above)) in
    let exact : word_sub (word_add a q) 1 ≡ a + q - 1 = omega arith in
    let not_zero : ltb t 1 ≡ false = ground arith in
    let not_over : ltb 64 t ≡ false = ground arith in
    rw (exact, not_zero, not_over)
      (least, omega (arith, most), omega (arith, above), omega (arith, below, pos))

-- Each data area is cut into 1 to 64 chunks of one size, a multiple of 8 and at least 1 MiB; the
-- chunks cover it and the last one holds some of it.
pub retention_geometry_covers :
    (a : ℕ)
    → 0 < a
    → a < 2 ^ 63
    → let g = retention_geometry a in
      (0 < g.chunks)
      × (g.chunks ≤ 64)
      × (g.chunk_size % 8 ≡ 0)
      × (2 ^ 20 ≤ g.chunk_size)
      × (a ≤ g.chunks * g.chunk_size)
      × (g.chunks * g.chunk_size < a + g.chunk_size)
      × (g.chunk_size < 2 ^ 62)
unfolding retention_geometry
retention_geometry_covers a pos small =
    let some_area : (a == 0) ≡ false = ground arith in
    let size = chunk_bytes_lem a small in
    let count = chunk_count a (chunk_bytes a) pos small (omega (arith, size.0)) size.1 size.3 in
    rw some_area (count.0, count.1, size.2, size.0, count.2, count.3, size.3)
