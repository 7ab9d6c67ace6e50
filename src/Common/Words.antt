-- ===== src/Common/Words.antt =====
-- The unsigned arithmetic of a 64-bit word, and the casts to narrower ones.
use Prim.Native.Nat.{ℕ, ◌+◌, ◌-◌, ◌*◌, ◌%◌, ◌^◌}

abbrev pub word_add : ℕ → ℕ → ℕ
word_add a b = (a + b) % 2 ^ 64

abbrev pub word_sub : ℕ → ℕ → ℕ
word_sub a b = (a + 2 ^ 64 - b) % 2 ^ 64

abbrev pub word_mul : ℕ → ℕ → ℕ
word_mul a b = a * b % 2 ^ 64

abbrev pub low_32 : ℕ → ℕ
low_32 a = a % 2 ^ 32
