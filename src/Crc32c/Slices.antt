-- ===== src/Crc32c/Slices.antt =====
-- src/core/crc32c.cpp: the sliced kernel against the loop over single bytes.
use native.Mathlib.Nat.{zero-add, suc-add}
use cyclone_cache.Common.{
  ℕ, zero, suc, ◌+◌, ◌*◌, ◌/◌, ◌^◌, ◌<◌, ◌≤◌, ◌≡◌, refl, ap, sym, ◌∙◌, List, [], ◌∷◌, bit_and,
  bit_xor, length, drop, All, arith,
}
use cyclone_cache.Common.Bits.{bit_and-low}
use cyclone_cache.Common.Bytes.{le_bytes}
use cyclone_cache.Common.Xor.{bit_xor-zero, bit_xor_assoc}
use cyclone_cache.Crc32c.{bit_round, rounds, lookups}
use cyclone_cache.Crc32c.Registers.{zeros, zeros_byte, slice-zeros, contribution}

zeros-zero : (k : ℕ) → zeros k 0 ≡ 0
unfolding zeros rounds bit_round
zeros-zero zero = refl
zeros-zero (suc k) = ap (rounds 8) (zeros-zero k)

pub zeros-zeros : (a b x : ℕ) → zeros a (zeros b x) ≡ zeros (a + b) x
unfolding zeros
zeros-zeros zero b x = rw zero-add refl
zeros-zeros (suc a) b x = rw suc-add (ap (rounds 8) (zeros-zeros a b x))

pub xor-right :
    (a b c d : ℕ) → bit_xor (bit_xor (bit_xor a b) c) d ≡ bit_xor a (bit_xor b (bit_xor c d))
xor-right a b c d = bit_xor_assoc (bit_xor a b) c d ∙ bit_xor_assoc a b (bit_xor c d)

-- The four lookups of a word advance the register that holds it.
pub lookups-zeros : (s w : ℕ) → w < 2 ^ 32 → lookups s w ≡ zeros (suc (suc (suc (suc s)))) w
unfolding lookups
lookups-zeros s w h =
    let b1 : w / 2 ^ 8 / 2 ^ 8 ≡ w / 2 ^ 16 = omega arith in
    let b2 : w / 2 ^ 16 / 2 ^ 8 ≡ w / 2 ^ 24 = omega arith in
    let b3 : w / 2 ^ 24 / 2 ^ 8 ≡ 0 = omega arith in
    xor-right _ _ _ _
    ∙ sym (
        zeros_byte (suc (suc (suc s))) w
        ∙ ap (bit_xor _) (
            zeros_byte (suc (suc s)) (w / 2 ^ 8)
            ∙ rw b1 (
                ap (bit_xor _) (
                  zeros_byte (suc s) (w / 2 ^ 16)
                  ∙ rw b2 (
                      ap (bit_xor _)
                        (zeros_byte s (w / 2 ^ 24) ∙ rw (b3, zeros-zero s) (bit_xor-zero _)))))))

-- A byte in front of the others of a word.
zeros_cons :
    (k b q : ℕ) → b < 256 → zeros (suc k) (b + 256 * q) ≡ bit_xor (zeros (suc k) b) (zeros k q)
zeros_cons k b q h =
    let low : bit_and (b + 256 * q) 0xff ≡ b = omega (arith, bit_and-low 8 (b + 256 * q)) in
    let high : (b + 256 * q) / 2 ^ 8 ≡ q = omega arith in
    zeros_byte k (b + 256 * q) ∙ rw (low, high, slice-zeros k b) refl

-- The bytes of a word contribute what the word does.
pub contribution_word :
    (p : List ℕ)
    → 4 ≤ length p
    → All (λ b. b < 256) p
    → contribution p ≡ bit_xor (zeros (length p) (le_bytes 4 p)) (contribution (drop 4 p))
unfolding contribution le_bytes
contribution_word [] n h = absurd (omega arith)
contribution_word (a ∷ []) n h = absurd (omega arith)
contribution_word (a ∷ b ∷ []) n h = absurd (omega arith)
contribution_word (a ∷ b ∷ c ∷ []) n h = absurd (omega arith)
contribution_word (a ∷ b ∷ c ∷ d ∷ bs) n h =
    let k = length bs in
    let word =
      zeros_cons (suc (suc (suc k))) a (b + 256 * (c + 256 * (d + 256 * 0))) h.0
      ∙ ap (bit_xor _) (
          zeros_cons (suc (suc k)) b (c + 256 * (d + 256 * 0)) h.1.0
          ∙ ap (bit_xor _) (
              zeros_cons (suc k) c (d + 256 * 0) h.1.1.0
              ∙ ap (bit_xor _)
                  (zeros_cons k d 0 h.1.1.1.0 ∙ ap (bit_xor _) (zeros-zero k) ∙ bit_xor-zero _))) in
    sym (
      ap (λ (x : ℕ). bit_xor x (contribution bs)) word
      ∙ bit_xor_assoc _ _ _
      ∙ ap (bit_xor _) (bit_xor_assoc _ _ _ ∙ ap (bit_xor _) (bit_xor_assoc _ _ _)))
