-- ===== src/Common/Bytes.antt =====
-- Integers in memory: `memcpy` between an unsigned integer of `n` bytes and its bytes, on a
-- little-endian host.
use native.Mathlib.Nat.{pow-suc, one-le-pow}
use Prim.Native.Nat.{ℕ, zero, suc, ◌+◌, ◌*◌, ◌/◌, ◌%◌, ◌^◌, ◌<◌, ◌≤◌}
use mathlib.Core.Path.{◌≡◌, refl, ap, ap₂, ◌∙◌, subst}
use mathlib.Core.List.{List, [], ◌∷◌, ◌++◌, append-nil}
use native.Mathlib.Omega.{arith}
use cyclone_cache.Common.Lists.{length, All, take}

-- The first `n` bytes as a number.
unfoldable pub le_bytes : ℕ → List ℕ → ℕ
le_bytes zero bs = 0
le_bytes (suc n) [] = 0
le_bytes (suc n) (b ∷ bs) = b + 256 * le_bytes n bs

-- The low `n` bytes of a number.
unfoldable pub to_le : ℕ → ℕ → List ℕ
to_le zero v = []
to_le (suc n) v = v % 256 ∷ to_le n (v / 256)

pub length-to_le : (n v : ℕ) → length (to_le n v) ≡ n
unfolding to_le
length-to_le zero v = refl
length-to_le (suc n) v = ap suc (length-to_le n (v / 256))

pub to_le-bytes : (n v : ℕ) → All (λ b. b < 256) (to_le n v)
unfolding to_le
to_le-bytes zero v = tt
to_le-bytes (suc n) v = (omega arith, to_le-bytes n (v / 256))

pub le_bytes-lt : (n : ℕ) (bs : List ℕ) → All (λ b. b < 256) bs → le_bytes n bs < 256 ^ n
unfolding le_bytes
le_bytes-lt zero bs h = omega arith
le_bytes-lt (suc n) [] h = omega (arith, one-le-pow (suc n) 256)
le_bytes-lt (suc n) (b ∷ bs) h = omega (arith, pow-suc 256 n, le_bytes-lt n bs h.1)

-- What was written is read back, whatever follows it.
pub le_bytes-to_le : (n v : ℕ) (rest : List ℕ) → v < 256 ^ n → le_bytes n (to_le n v ++ rest) ≡ v
unfolding le_bytes to_le
le_bytes-to_le zero v rest h = omega arith
le_bytes-to_le (suc n) v rest h =
    omega (arith, le_bytes-to_le n (v / 256) rest (omega (arith, pow-suc 256 n)))

-- The bytes that were read are those that stand there.
pub to_le-le_bytes :
    (n : ℕ) (bs : List ℕ)
    → n ≤ length bs
    → All (λ b. b < 256) bs
    → to_le n (le_bytes n bs) ≡ take n bs
unfolding le_bytes to_le
to_le-le_bytes zero bs h bytes = ground arith
to_le-le_bytes (suc n) [] h bytes = absurd (omega arith)
to_le-le_bytes (suc n) (b ∷ bs) h bytes =
    let low : (b + 256 * le_bytes n bs) % 256 ≡ b = omega (arith, bytes.0) in
    let high : (b + 256 * le_bytes n bs) / 256 ≡ le_bytes n bs = omega (arith, bytes.0) in
    ap₂ ◌∷◌ low (ap (to_le n) high ∙ to_le-le_bytes n bs (omega arith) bytes.1)

pub le_bytes-to_le_exact : (n v : ℕ) → v < 256 ^ n → le_bytes n (to_le n v) ≡ v
le_bytes-to_le_exact n v h =
    subst (λ (bs : List ℕ). le_bytes n bs ≡ v) (append-nil (to_le n v)) (le_bytes-to_le n v [] h)
