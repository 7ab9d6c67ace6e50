-- ===== src/FastDiv/Quotient.antt =====
-- src/core/volume.hpp: the quotient that `FastDivU64` returns.
use native.Mathlib.Nat.{
  mul-le-mul, mul-le-mul_left, mul-le-mul_right, mod-add-div', mod-lt, div-one, div-eq_of_lt-le,
}
use cyclone_cache.Common.{
  ℕ, ◌+◌, ◌-◌, ◌*◌, ◌/◌, ◌%◌, ◌^◌, ◌<◌, ◌≤◌, ◌≡◌, ap, ap₂, sym, ◌∙◌, false, if◌then◌else◌, inl, inr,
  leb, ◌==◌, Bool-cases, arith,
}
use cyclone_cache.Common.Words.{word_add, word_sub, word_mul}
use cyclone_cache.FastDiv.{fast_div, mulhi, mulhi_portable, quot}

-- The estimate from the reciprocal is the quotient or one less.
estimate :
    (n d : ℕ)
    → 0 < d
    → n < 2 ^ 64
    → let q = n * ((2 ^ 64 - 1) / d) / 2 ^ 64 in (q * d ≤ n) × (n < q * d + 2 * d)
estimate n d pos small =
    let m = (2 ^ 64 - 1) / d in
    let s = (2 ^ 64 - 1) % d in
    let q = n * m / 2 ^ 64 in
    let t = n * m % 2 ^ 64 in
    let halves : n * m ≡ q * 2 ^ 64 + t = omega arith in
    let t_small : t < 2 ^ 64 = omega arith in
    let scaled : n * m * d ≡ q * d * 2 ^ 64 + t * d = ap (λ (x : ℕ). x * d) halves ∙ omega arith in
    let whole : n * s + n * m * d ≡ n * (2 ^ 64 - 1) =
      omega (arith, ap (λ (x : ℕ). n * x) (mod-add-div' (2 ^ 64 - 1) d)) in
    let s_small : s + 1 ≤ d = omega (arith, mod-lt (2 ^ 64 - 1) pos) in
    let n_s : n * s + n ≤ n * d = omega (arith, mul-le-mul_left n s_small) in
    let t_d : t * d ≤ (2 ^ 64 - 1) * d = mul-le-mul_right d (omega arith) in
    let n_d : n * d ≤ (2 ^ 64 - 1) * d = mul-le-mul_right d (omega arith) in
    (omega (arith, scaled, whole), omega (arith, scaled, whole, n_s, t_d, n_d, pos))

-- The correction by one makes the estimate exact.
corrected :
    (n d q : ℕ)
    → 1 < d
    → n < 2 ^ 64
    → q * d ≤ n
    → n < q * d + 2 * d
    → (if leb d (word_sub n (word_mul q d)) then word_add q 1 else q) ≡ n / d
corrected n d q more small low high =
    let left : word_sub n (word_mul q d) ≡ n - q * d = omega arith in
    let bound : q * 2 ≤ q * d = mul-le-mul_left q (omega arith) in
    rw left (elim (Bool-cases (leb d (n - q * d))) [
      | inl over ↦
          rw over (omega arith ∙ sym (div-eq_of_lt-le {k = q + 1} d (ground arith) (ground arith)))
      | inr fits ↦ rw fits (sym (div-eq_of_lt-le d low (ground arith)))
    ])

pub quot-div : (d n : ℕ) → 0 < d → n < 2 ^ 64 → quot (fast_div d) n ≡ n / d
unfolding quot fast_div mulhi
quot-div d n pos small =
    let zero : (d == 0) ≡ false = ground arith in
    rw zero (elim (Bool-cases (d == 1)) [
      | inl one ↦ rw one (let is_one : d ≡ 1 = ground arith in rw is_one (sym (div-one n)))
      | inr more ↦
          let big : leb d 1 ≡ false = ground arith in
          rw (more, big)
            (corrected n d (n * ((2 ^ 64 - 1) / d) / 2 ^ 64) (ground arith) small
              (estimate n d pos small).0 (estimate n d pos small).1)
    ])

product_halves :
    (w x y z : ℕ)
    → (x * 2 ^ 32 + w) * (z * 2 ^ 32 + y) ≡ x * z * 2 ^ 64 + (x * y + w * z) * 2 ^ 32 + w * y
product_halves w x y z = omega arith

small_product : (x y : ℕ) → x < 2 ^ 32 → y < 2 ^ 32 → x * y ≤ (2 ^ 32 - 1) * (2 ^ 32 - 1)
small_product x y hx hy =
    let p : x ≤ 2 ^ 32 - 1 = omega arith in let q : y ≤ 2 ^ 32 - 1 = omega arith in mul-le-mul p q

-- The four partial products carry exactly, so both ways to the high half agree.
pub mulhi_portable-mulhi : (a b : ℕ) → a < 2 ^ 64 → b < 2 ^ 64 → mulhi_portable a b ≡ mulhi a b
unfolding mulhi_portable mulhi
mulhi_portable-mulhi a b ha hb =
    let w = a % 2 ^ 32 in
    let x = a / 2 ^ 32 in
    let y = b % 2 ^ 32 in
    let z = b / 2 ^ 32 in
    let a_halves : a ≡ x * 2 ^ 32 + w = omega arith in
    let b_halves : b ≡ z * 2 ^ 32 + y = omega arith in
    let expand : a * b ≡ x * z * 2 ^ 64 + (x * y + w * z) * 2 ^ 32 + w * y =
      ap₂ (λ (s t : ℕ). s * t) a_halves b_halves ∙ product_halves w x y z in
    let wy = small_product w y (omega arith) (omega arith) in
    let xy = small_product x y (omega arith) (omega arith) in
    let wz = small_product w z (omega arith) (omega arith) in
    let xz = small_product x z (omega arith) (omega arith) in omega (arith, expand, wy, xy, wz, xz)

-- The quotient by the precomputed reciprocal is the quotient, for every word and every divisor but zero,
-- and the portable high half of a product of two words is the high half.
pub quot-exact :
    (d n m : ℕ)
    → 0 < d
    → n < 2 ^ 64
    → m < 2 ^ 64
    → (quot (fast_div d) n ≡ n / d) × (mulhi_portable n m ≡ mulhi n m)
quot-exact d n m pos hn hm = (quot-div d n pos hn, mulhi_portable-mulhi n m hn hm)
