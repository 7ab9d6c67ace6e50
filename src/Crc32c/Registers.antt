-- ===== src/Crc32c/Registers.antt =====
-- src/core/crc32c.cpp: the register as a linear map, and what each byte contributes to it.
use cyclone_cache.Common.{
  ℕ, zero, suc, ◌+◌, ◌*◌, ◌/◌, ◌%◌, ◌^◌, ◌<◌, ◌≡◌, ◌⊎◌, inl, inr, refl, ap, sym, ◌∙◌, List, [], ◌∷◌,
  bit_and, bit_xor, length, All, ◌==◌, if-both, true, false, arith,
}
use cyclone_cache.Common.Bits.{bit_and-low, mul-pow-suc}
use cyclone_cache.Common.Xor.{
  bit_xor-halves, bit_xor-lt, bit_xor-high, bit_xor-low, bit_xor-zero, zero-bit_xor, bit_xor_comm,
  bit_xor_assoc, bit_xor-swap,
}
use cyclone_cache.Crc32c.{poly_reflected, bit_round, rounds, slice, crc_byte, crc_bytes}

parity : (c : ℕ) → (c % 2 ≡ 0) ⊎ (c % 2 ≡ 1)
parity c = ground arith

bit_round_sum : (c : ℕ) → bit_round c ≡ bit_xor (c % 2 * poly_reflected) (c / 2)
unfolding bit_round
bit_round_sum c = elim (parity c) [
  | inl even ↦
      let test : (bit_and c 1 == 0) ≡ true = ground (arith, bit_and-low 1 c) in
      rw (test, even) (sym (zero-bit_xor (c / 2)))
  | inr odd ↦
      let test : (bit_and c 1 == 0) ≡ false = ground (arith, bit_and-low 1 c) in rw (test, odd) refl
]

multiples :
    (a b : ℕ)
    → (a % 2 + b % 2) % 2 * poly_reflected
      ≡ bit_xor (a % 2 * poly_reflected) (b % 2 * poly_reflected)
multiples a b = elim (parity a) [
  | inl ea ↦ elim (parity b) [ inl eb ↦ rw (ea, eb) refl | inr eb ↦ rw (ea, eb) refl ]
  | inr ea ↦ elim (parity b) [ inl eb ↦ rw (ea, eb) refl | inr eb ↦ rw (ea, eb) refl ]
]

pub bit_round-bit_xor : (a b : ℕ) → bit_round (bit_xor a b) ≡ bit_xor (bit_round a) (bit_round b)
bit_round-bit_xor a b =
    let low : bit_xor a b % 2 ≡ (a % 2 + b % 2) % 2 = omega (arith, bit_xor-halves a b) in
    let high : bit_xor a b / 2 ≡ bit_xor (a / 2) (b / 2) = omega (arith, bit_xor-halves a b) in
    rw (bit_round_sum (bit_xor a b), bit_round_sum a, bit_round_sum b, low, high, multiples a b)
      (bit_xor-swap _ _ _ _)

pub rounds-bit_xor : (k a b : ℕ) → rounds k (bit_xor a b) ≡ bit_xor (rounds k a) (rounds k b)
unfolding rounds
rounds-bit_xor zero a b = refl
rounds-bit_xor (suc k) a b =
    rw (bit_round-bit_xor a b) (rounds-bit_xor k (bit_round a) (bit_round b))

rounds_shift : (k q : ℕ) → rounds k (q * 2 ^ k) ≡ q
unfolding rounds
rounds_shift zero q = omega arith
rounds_shift (suc k) q =
    let low : q * 2 ^ suc k % 2 ≡ 0 = omega (arith, mul-pow-suc q k) in
    let high : q * 2 ^ suc k / 2 ≡ q * 2 ^ k = omega (arith, mul-pow-suc q k) in
    rw (bit_round_sum (q * 2 ^ suc k), low, high, zero-bit_xor (q * 2 ^ k)) (rounds_shift k q)

bit_round-lt : (c : ℕ) → c < 2 ^ 32 → bit_round c < 2 ^ 32
unfolding bit_round
bit_round-lt c h =
    if-both (λ n. n < 2 ^ 32) (bit_and c 1 == 0) (c / 2) (bit_xor poly_reflected (c / 2))
      (omega arith) (bit_xor-lt 32 poly_reflected (c / 2) (omega arith) (omega arith))

pub rounds-lt : (k c : ℕ) → c < 2 ^ 32 → rounds k c < 2 ^ 32
unfolding rounds
rounds-lt zero c h = h
rounds-lt (suc k) c h = rounds-lt k (bit_round c) (bit_round-lt c h)

-- A register is the sum of its low byte and the others.
byte_sum : (x : ℕ) → bit_xor (x % 2 ^ 8) (x / 2 ^ 8 * 2 ^ 8) ≡ x
byte_sum x = bit_xor-high 8 (x % 2 ^ 8) (x / 2 ^ 8) (omega arith) ∙ omega arith

-- Eight rounds: a lookup of the low byte, added to the other bytes.
pub rounds_byte : (x : ℕ) → rounds 8 x ≡ bit_xor (x / 2 ^ 8) (rounds 8 (bit_and x 0xff))
rounds_byte x = rw (bit_and-low 8 x) (
    ap (rounds 8) (sym (byte_sum x))
    ∙ rounds-bit_xor 8 (x % 2 ^ 8) (x / 2 ^ 8 * 2 ^ 8)
    ∙ ap (bit_xor (rounds 8 (x % 2 ^ 8))) (rounds_shift 8 (x / 2 ^ 8))
    ∙ bit_xor_comm (rounds 8 (x % 2 ^ 8)) (x / 2 ^ 8))

xor_byte-high : (crc b : ℕ) → b < 256 → bit_xor crc b / 2 ^ 8 ≡ crc / 2 ^ 8
xor_byte-high crc b h =
    let split : crc ≡ crc / 2 ^ 8 * 2 ^ 8 + crc % 2 ^ 8 = omega arith in
    let e : bit_xor crc b ≡ crc / 2 ^ 8 * 2 ^ 8 + bit_xor (crc % 2 ^ 8) b =
      ap (λ (x : ℕ). bit_xor x b) split
      ∙ bit_xor-low 8 (crc / 2 ^ 8) (crc % 2 ^ 8) b (omega arith) h in
    omega (arith, e, bit_xor-lt 8 (crc % 2 ^ 8) b (omega arith) h)

pub crc_byte-rounds : (crc b : ℕ) → b < 256 → crc_byte crc b ≡ rounds 8 (bit_xor crc b)
unfolding crc_byte slice
crc_byte-rounds crc b h =
    let high : bit_xor crc b / 2 ^ 8 ≡ crc / 2 ^ 8 = xor_byte-high crc b h in
    bit_xor_comm (rounds 8 (bit_and (bit_xor crc b) 0xff)) (crc / 2 ^ 8)
    ∙ ap (λ (q : ℕ). bit_xor q (rounds 8 (bit_and (bit_xor crc b) 0xff))) (sym high)
    ∙ sym (rounds_byte (bit_xor crc b))

-- `k` zero bytes.
unfoldable pub zeros : ℕ → ℕ → ℕ
zeros zero x = x
zeros (suc k) x = rounds 8 (zeros k x)

pub zeros_front : (k x : ℕ) → zeros k (rounds 8 x) ≡ zeros (suc k) x
unfolding zeros
zeros_front zero x = refl
zeros_front (suc k) x = ap (rounds 8) (zeros_front k x)

pub zeros-bit_xor : (k a b : ℕ) → zeros k (bit_xor a b) ≡ bit_xor (zeros k a) (zeros k b)
unfolding zeros
zeros-bit_xor zero a b = refl
zeros-bit_xor (suc k) a b =
    ap (rounds 8) (zeros-bit_xor k a b) ∙ rounds-bit_xor 8 (zeros k a) (zeros k b)

pub slice-zeros : (s n : ℕ) → slice s n ≡ zeros (suc s) n
unfolding slice zeros
slice-zeros zero n = refl
slice-zeros (suc s) n = sym (rounds_byte (slice s n)) ∙ ap (rounds 8) (slice-zeros s n)

-- The low byte of a register takes one round of eight more than the other bytes do.
pub zeros_byte :
    (k w : ℕ) → zeros (suc k) w ≡ bit_xor (slice k (bit_and w 0xff)) (zeros k (w / 2 ^ 8))
zeros_byte k w =
    rw (slice-zeros k (bit_and w 0xff), bit_and-low 8 w)
      (ap (zeros (suc k)) (sym (byte_sum w))
        ∙ zeros-bit_xor (suc k) (w % 2 ^ 8) (w / 2 ^ 8 * 2 ^ 8)
        ∙ ap (bit_xor (zeros (suc k) (w % 2 ^ 8)))
            (sym (zeros_front k (w / 2 ^ 8 * 2 ^ 8)) ∙ ap (zeros k) (rounds_shift 8 (w / 2 ^ 8))))

-- What the bytes contribute, each advanced over those behind it.
unfoldable pub contribution : List ℕ → ℕ
contribution [] = 0
contribution (b ∷ bs) = bit_xor (zeros (suc (length bs)) b) (contribution bs)

pub crc_bytes_sum :
    (crc : ℕ) (bs : List ℕ)
    → All (λ b. b < 256) bs
    → crc_bytes crc bs ≡ bit_xor (zeros (length bs) crc) (contribution bs)
unfolding crc_bytes contribution zeros
crc_bytes_sum crc [] h = sym (bit_xor-zero crc)
crc_bytes_sum crc (b ∷ bs) h = rw (crc_byte-rounds crc b h.0) (
    crc_bytes_sum (rounds 8 (bit_xor crc b)) bs h.1
    ∙ ap (λ (x : ℕ). bit_xor x (contribution bs))
        (zeros_front (length bs) (bit_xor crc b) ∙ zeros-bit_xor (suc (length bs)) crc b)
    ∙ bit_xor_assoc (zeros (suc (length bs)) crc) (zeros (suc (length bs)) b) (contribution bs))
