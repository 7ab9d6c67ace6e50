-- ===== src/Common/Xor.antt =====
-- The exclusive or of the source at variables.
use Prim.Native.Nat.{
  ℕ, zero, suc, ◌+◌, ◌*◌, ◌/◌, ◌%◌, ◌^◌, ◌≤◌, ◌<◌, bit_xor, bit_xor-bitwise, differ,
}
use mathlib.Core.Path.{◌≡◌, refl, ap, ap₂, sym, ◌∙◌}
use native.Mathlib.Omega.{arith}
use native.Mathlib.Nat.{pow-suc, one-le-pow, le_refl}
use cyclone_cache.Common.Bits.{digits_enough, mul-pow-suc}

differ_digits : (x y : ℕ) → x < 2 → y < 2 → differ x y ≡ (x + y) % 2
differ_digits zero y h k = omega arith
differ_digits (suc x) zero h k = omega arith
differ_digits (suc zero) (suc y) h k = omega arith
differ_digits (suc (suc x)) (suc y) h k = absurd (omega arith)

differ_bits : (a b : ℕ) → differ (a % 2) (b % 2) ≡ (a % 2 + b % 2) % 2
differ_bits a b = differ_digits (a % 2) (b % 2) (omega arith) (omega arith)

pub bit_xor-halves : (a b : ℕ) → bit_xor a b ≡ bit_xor (a / 2) (b / 2) * 2 + (a % 2 + b % 2) % 2
bit_xor-halves zero b =
    omega (arith, bit_xor-bitwise 0 b, bit_xor-bitwise 0 (b / 2), differ_bits 0 b)
bit_xor-halves (suc a) b = omega (
  arith,
  bit_xor-bitwise (suc a) b,
  bit_xor-bitwise (suc a / 2) (b / 2),
  differ_bits (suc a) b,
  digits_enough (λ y. y) differ a (suc a / 2) (suc a / 2) (b / 2) (omega arith) (le_refl _),
)

pub bit_xor-lt : (k a b : ℕ) → a < 2 ^ k → b < 2 ^ k → bit_xor a b < 2 ^ k
bit_xor-lt zero a b ha hb =
    let ea : a ≡ 0 = omega arith in let eb : b ≡ 0 = omega arith in rw (ea, eb) (omega arith)
bit_xor-lt (suc k) a b ha hb = omega (
  arith,
  pow-suc 2 k,
  bit_xor-halves a b,
  bit_xor-lt k (a / 2) (b / 2) (omega (arith, pow-suc 2 k)) (omega (arith, pow-suc 2 k)),
)

-- `^` at a bit position.
pub bit_xor-split :
    (k q r m n : ℕ)
    → r < 2 ^ k
    → n < 2 ^ k
    → bit_xor (q * 2 ^ k + r) (m * 2 ^ k + n) ≡ bit_xor q m * 2 ^ k + bit_xor r n
bit_xor-split zero q r m n hr hn =
    let er : r ≡ 0 = omega arith in let en : n ≡ 0 = omega arith in rw (er, en) (ground arith)
bit_xor-split (suc k) q r m n hr hn = ground (
  arith,
  bit_xor-halves (q * 2 ^ suc k + r) (m * 2 ^ suc k + n),
  bit_xor-halves r n,
  mul-pow-suc q k,
  mul-pow-suc m k,
  mul-pow-suc (bit_xor q m) k,
  pow-suc 2 k,
  bit_xor-split k q (r / 2) m (n / 2) (omega (arith, pow-suc 2 k)) (omega (arith, pow-suc 2 k)),
)

zero_below : (n a : ℕ) → a ≤ n → bit_xor a 0 ≡ a
zero_below zero a h = let e : a ≡ 0 = omega arith in rw e refl
zero_below (suc n) zero h = refl
zero_below (suc n) (suc a) h =
    omega (arith, bit_xor-halves (suc a) 0, zero_below n (suc a / 2) (omega arith))

pub bit_xor-zero : (a : ℕ) → bit_xor a 0 ≡ a
bit_xor-zero a = zero_below a a (le_refl a)

pub zero-bit_xor : (b : ℕ) → bit_xor 0 b ≡ b
zero-bit_xor b = omega (arith, bit_xor-bitwise 0 b)

comm_below : (n a b : ℕ) → a ≤ n → b ≤ n → bit_xor a b ≡ bit_xor b a
comm_below zero a b h k =
    let e : a ≡ 0 = omega arith in let e' : b ≡ 0 = omega arith in rw (e, e') refl
comm_below (suc n) zero b h k = omega (arith, bit_xor-zero b, zero-bit_xor b)
comm_below (suc n) (suc a) zero h k = omega (arith, bit_xor-zero (suc a), zero-bit_xor (suc a))
comm_below (suc n) (suc a) (suc b) h k = omega (
  arith,
  bit_xor-halves (suc a) (suc b),
  bit_xor-halves (suc b) (suc a),
  comm_below n (suc a / 2) (suc b / 2) (omega arith) (omega arith),
)

pub bit_xor_comm : (a b : ℕ) → bit_xor a b ≡ bit_xor b a
bit_xor_comm a b = comm_below (a + b) a b (omega arith) (omega arith)

assoc_below :
    (n a b c : ℕ) → a ≤ n → b ≤ n → c ≤ n → bit_xor (bit_xor a b) c ≡ bit_xor a (bit_xor b c)
assoc_below zero a b c ha hb hc =
    let ea : a ≡ 0 = omega arith in
    let eb : b ≡ 0 = omega arith in let ec : c ≡ 0 = omega arith in rw (ea, eb, ec) refl
assoc_below (suc n) a b c ha hb hc =
    let ih = assoc_below n (a / 2) (b / 2) (c / 2) (omega arith) (omega arith) (omega arith) in
    let ab : bit_xor a b / 2 ≡ bit_xor (a / 2) (b / 2) = omega (arith, bit_xor-halves a b) in
    let bc : bit_xor b c / 2 ≡ bit_xor (b / 2) (c / 2) = omega (arith, bit_xor-halves b c) in
    let ab2 : bit_xor a b % 2 ≡ (a % 2 + b % 2) % 2 = omega (arith, bit_xor-halves a b) in
    let bc2 : bit_xor b c % 2 ≡ (b % 2 + c % 2) % 2 = omega (arith, bit_xor-halves b c) in
    let l = bit_xor-halves (bit_xor a b) c in
    let r = bit_xor-halves a (bit_xor b c) in
    l ∙ rw (ab, ab2, ih) (sym (r ∙ rw (bc, bc2) (omega arith)))

pub bit_xor_assoc : (a b c : ℕ) → bit_xor (bit_xor a b) c ≡ bit_xor a (bit_xor b c)
bit_xor_assoc a b c = assoc_below (a + b + c) a b c (omega arith) (omega arith) (omega arith)

-- Exclusive or of two sums, term by term.
pub bit_xor-swap :
    (a b c d : ℕ) → bit_xor (bit_xor a b) (bit_xor c d) ≡ bit_xor (bit_xor a c) (bit_xor b d)
bit_xor-swap a b c d =
    bit_xor_assoc a b (bit_xor c d)
    ∙ ap (bit_xor a) (
        sym (bit_xor_assoc b c d)
        ∙ ap (λ (x : ℕ). bit_xor x d) (bit_xor_comm b c)
        ∙ bit_xor_assoc c b d)
    ∙ sym (bit_xor_assoc a c (bit_xor b d))

-- Words without a common bit position, and a word below a bit position.
pub bit_xor-high : (k r q : ℕ) → r < 2 ^ k → bit_xor r (q * 2 ^ k) ≡ r + q * 2 ^ k
bit_xor-high k r q h =
    let low : 0 * 2 ^ k + r ≡ r = omega arith in
    let high : q * 2 ^ k + 0 ≡ q * 2 ^ k = omega arith in
    ap₂ bit_xor (sym low) (sym high)
    ∙ bit_xor-split k 0 r q 0 h (omega (arith, one-le-pow k 2))
    ∙ rw (zero-bit_xor q, bit_xor-zero r) (omega arith)

pub bit_xor-low :
    (k q r n : ℕ) → r < 2 ^ k → n < 2 ^ k → bit_xor (q * 2 ^ k + r) n ≡ q * 2 ^ k + bit_xor r n
bit_xor-low k q r n hr hn =
    let low : 0 * 2 ^ k + n ≡ n = omega arith in
    ap (bit_xor (q * 2 ^ k + r)) (sym low)
    ∙ bit_xor-split k q r 0 n hr hn
    ∙ rw (bit_xor-zero q) refl
