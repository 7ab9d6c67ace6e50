-- ===== src/Common/Bits.antt =====
-- The masks and shifts of the source, at variables. A word splits at a bit position, and the
-- bitwise operations work on the two halves separately.
use Prim.Native.Nat.{
  ℕ, zero, suc, ◌+◌, ◌*◌, ◌/◌, ◌%◌, ◌-◌, ◌^◌, ◌≤◌, ◌<◌, min, max, bit_and, bit_or, digits,
  bit_and-bitwise, bit_or-bitwise,
}
use mathlib.Core.Path.{◌≡◌, refl, ap}
use native.Mathlib.Omega.{arith}
use native.Mathlib.Nat.{pow-suc, one-le-pow, le_refl}

-- Enough fuel for the digits of `a` is any fuel from `a` up.
pub digits_enough :
    (f : ℕ → ℕ) (g : ℕ → ℕ → ℕ) (n m a b : ℕ) → a ≤ n → a ≤ m → digits f g n a b ≡ digits f g m a b
digits_enough f g zero zero a b p q = refl
digits_enough f g zero (suc m) zero b p q = refl
digits_enough f g zero (suc m) (suc a) b p q = absurd (omega arith)
digits_enough f g (suc n) zero zero b p q = refl
digits_enough f g (suc n) zero (suc a) b p q = absurd (omega arith)
digits_enough f g (suc n) (suc m) zero b p q = refl
digits_enough f g (suc n) (suc m) (suc a) b p q =
    omega (arith, digits_enough f g n m (suc a / 2) (b / 2) (omega arith) (omega arith))

pub bit_and-halves : (a b : ℕ) → bit_and a b ≡ bit_and (a / 2) (b / 2) * 2 + min (a % 2) (b % 2)
bit_and-halves zero b = omega (arith, bit_and-bitwise 0 b, bit_and-bitwise 0 (b / 2))
bit_and-halves (suc a) b = omega (
  arith,
  bit_and-bitwise (suc a) b,
  bit_and-bitwise (suc a / 2) (b / 2),
  digits_enough (λ y. zero) min a (suc a / 2) (suc a / 2) (b / 2) (omega arith) (le_refl _),
)

pub bit_or-halves : (a b : ℕ) → bit_or a b ≡ bit_or (a / 2) (b / 2) * 2 + max (a % 2) (b % 2)
bit_or-halves zero b = omega (arith, bit_or-bitwise 0 b, bit_or-bitwise 0 (b / 2))
bit_or-halves (suc a) b = omega (
  arith,
  bit_or-bitwise (suc a) b,
  bit_or-bitwise (suc a / 2) (b / 2),
  digits_enough (λ y. y) max a (suc a / 2) (suc a / 2) (b / 2) (omega arith) (le_refl _),
)

pub mul-pow-suc : (q k : ℕ) → q * 2 ^ suc k ≡ 2 * (q * 2 ^ k)
mul-pow-suc q k = omega (arith, ap (λ (t : ℕ). q * t) (pow-suc 2 k))

-- `&` at a bit position.
pub bit_and-split :
    (k q r m n : ℕ)
    → r < 2 ^ k
    → n < 2 ^ k
    → bit_and (q * 2 ^ k + r) (m * 2 ^ k + n) ≡ bit_and q m * 2 ^ k + bit_and r n
bit_and-split zero q r m n hr hn =
    let er : r ≡ 0 = omega arith in let en : n ≡ 0 = omega arith in rw (er, en) (ground arith)
bit_and-split (suc k) q r m n hr hn = ground (
  arith,
  bit_and-halves (q * 2 ^ suc k + r) (m * 2 ^ suc k + n),
  bit_and-halves r n,
  mul-pow-suc q k,
  mul-pow-suc m k,
  mul-pow-suc (bit_and q m) k,
  pow-suc 2 k,
  bit_and-split k q (r / 2) m (n / 2) (omega (arith, pow-suc 2 k)) (omega (arith, pow-suc 2 k)),
)

-- `|` at a bit position.
pub bit_or-split :
    (k q r m n : ℕ)
    → r < 2 ^ k
    → n < 2 ^ k
    → bit_or (q * 2 ^ k + r) (m * 2 ^ k + n) ≡ bit_or q m * 2 ^ k + bit_or r n
bit_or-split zero q r m n hr hn =
    let er : r ≡ 0 = omega arith in let en : n ≡ 0 = omega arith in rw (er, en) (ground arith)
bit_or-split (suc k) q r m n hr hn = ground (
  arith,
  bit_or-halves (q * 2 ^ suc k + r) (m * 2 ^ suc k + n),
  bit_or-halves r n,
  mul-pow-suc q k,
  mul-pow-suc m k,
  mul-pow-suc (bit_or q m) k,
  pow-suc 2 k,
  bit_or-split k q (r / 2) m (n / 2) (omega (arith, pow-suc 2 k)) (omega (arith, pow-suc 2 k)),
)

bit_or-zero_below : (n a : ℕ) → a ≤ n → bit_or a 0 ≡ a
bit_or-zero_below n zero h = refl
bit_or-zero_below zero (suc a) h = absurd (omega arith)
bit_or-zero_below (suc n) (suc a) h =
    omega (arith, bit_or-halves (suc a) 0, bit_or-zero_below n (suc a / 2) (omega arith))

pub bit_or-zero : (a : ℕ) → bit_or a 0 ≡ a
bit_or-zero a = bit_or-zero_below a a (le_refl a)

pub zero-bit_or : (a : ℕ) → bit_or 0 a ≡ a
zero-bit_or a = omega (arith, bit_or-bitwise 0 a)

pub zero-bit_and : (a : ℕ) → bit_and 0 a ≡ 0
zero-bit_and a = omega (arith, bit_and-bitwise 0 a)

bit_and-zero_below : (n a : ℕ) → a ≤ n → bit_and a 0 ≡ 0
bit_and-zero_below n zero h = refl
bit_and-zero_below zero (suc a) h = absurd (omega arith)
bit_and-zero_below (suc n) (suc a) h =
    omega (arith, bit_and-halves (suc a) 0, bit_and-zero_below n (suc a / 2) (omega arith))

pub bit_and-zero : (a : ℕ) → bit_and a 0 ≡ 0
bit_and-zero a = bit_and-zero_below a a (le_refl a)

-- A mask of `k` ones keeps a number of `k` bits.
pub bit_and-ones : (k r : ℕ) → r < 2 ^ k → bit_and r (2 ^ k - 1) ≡ r
bit_and-ones zero r h = let e : r ≡ 0 = omega arith in rw e
bit_and-ones (suc k) r h = ground (
  arith,
  bit_and-halves r (2 ^ suc k - 1),
  pow-suc 2 k,
  one-le-pow k 2,
  bit_and-ones k (r / 2) (omega (arith, pow-suc 2 k)),
)

-- A mask of `k` low bits is the remainder by `2 ^ k`.
pub bit_and-low : (k a : ℕ) → bit_and a (2 ^ k - 1) ≡ a % 2 ^ k
bit_and-low k a = ground (
  arith,
  one-le-pow k 2,
  bit_and-split k (a / 2 ^ k) (a % 2 ^ k) 0 (2 ^ k - 1),
  bit_and-ones k (a % 2 ^ k),
  bit_and-zero (a / 2 ^ k),
)

-- Disjoint fields add up.
pub bit_or-low : (k q r : ℕ) → r < 2 ^ k → bit_or (q * 2 ^ k) r ≡ q * 2 ^ k + r
bit_or-low k q r h =
    ground (arith, one-le-pow k 2, bit_or-split k q 0 0 r, bit_or-zero q, zero-bit_or r)

pub bit_or-high : (k r q : ℕ) → r < 2 ^ k → bit_or r (q * 2 ^ k) ≡ r + q * 2 ^ k
bit_or-high k r q h =
    ground (arith, one-le-pow k 2, bit_or-split k 0 r q 0, bit_or-zero r, zero-bit_or q)
