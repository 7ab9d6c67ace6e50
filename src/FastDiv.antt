-- ===== src/FastDiv.antt =====
-- src/core/volume.hpp: `FastDivU64`, the division of a 64-bit word by a divisor that is fixed at
-- open, from a reciprocal and the high half of a product.
pub mod Quotient
use cyclone_cache.Common.{ℕ, ◌+◌, ◌-◌, ◌*◌, ◌/◌, ◌%◌, ◌^◌, ltb, leb, ◌==◌, if◌then◌else◌}
use cyclone_cache.Common.Words.{word_add, word_sub, word_mul, low_32}

pub record FastDivU64 : Type 0 where
  pub divisor : ℕ
  pub reciprocal : ℕ

unfoldable pub fast_div : ℕ → FastDivU64
fast_div divisor =
    let d = if divisor == 0 then 1 else divisor in
    record { divisor = d; reciprocal = if leb d 1 then 0 else (2 ^ 64 - 1) / d }

-- The high half of a 64 by 64 bit product.
unfoldable pub mulhi : ℕ → ℕ → ℕ
mulhi a b = a * b / 2 ^ 64

unfoldable pub mulhi_portable : ℕ → ℕ → ℕ
mulhi_portable a b =
    let a_lo = low_32 a in
    let a_hi = a / 2 ^ 32 in
    let b_lo = low_32 b in
    let b_hi = b / 2 ^ 32 in
    let lo_lo = word_mul a_lo b_lo in
    let hi_lo = word_mul a_hi b_lo in
    let lo_hi = word_mul a_lo b_hi in
    let hi_hi = word_mul a_hi b_hi in
    let cross = word_add (word_add (lo_lo / 2 ^ 32) (low_32 hi_lo)) lo_hi in
    word_add (word_add hi_hi (hi_lo / 2 ^ 32)) (cross / 2 ^ 32)

unfoldable pub quot : FastDivU64 → ℕ → ℕ
quot v n =
    let q = mulhi n v.reciprocal in
    if v.divisor == 1
    then n
    else if leb v.divisor (word_sub n (word_mul q v.divisor))
    then word_add q 1
    else q
