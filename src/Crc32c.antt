-- ===== src/Crc32c.antt =====
-- src/core/crc32c.cpp: CRC-32C by the portable kernel. Memory is a list of bytes; the address of
-- its first byte is an argument, because the kernel steps to an 8-byte boundary.
pub mod Registers
pub mod Slices
pub mod Kernel
pub mod Chunks
pub mod Incremental
use cyclone_cache.Common.{
  ℕ, zero, suc, ◌+◌, ◌-◌, ◌*◌, ◌/◌, ◌%◌, ◌^◌, ◌<◌, List, [], ◌∷◌, Bool, true, false, min, bit_and,
  bit_xor, length, take, drop, leb, ◌==◌, if◌then◌else◌,
}
use cyclone_cache.Common.Bytes.{le_bytes}

abbrev pub poly_reflected : ℕ
poly_reflected = 0x82F63B78

-- One round of the table's inner loop, and `k` of them.
unfoldable pub bit_round : ℕ → ℕ
bit_round c = if bit_and c 1 == 0 then c / 2 else bit_xor poly_reflected (c / 2)

unfoldable pub rounds : ℕ → ℕ → ℕ
rounds zero c = c
rounds (suc k) c = rounds k (bit_round c)

-- `kSlice[s][n]`.
unfoldable pub slice : ℕ → ℕ → ℕ
slice zero n = rounds 8 n
slice (suc s) n = bit_xor (slice s n / 2 ^ 8) (rounds 8 (bit_and (slice s n) 0xff))

unfoldable pub crc_byte : ℕ → ℕ → ℕ
crc_byte crc b = bit_xor (slice 0 (bit_and (bit_xor crc b) 0xff)) (crc / 2 ^ 8)

-- The loops over single bytes.
unfoldable pub crc_bytes : ℕ → List ℕ → ℕ
crc_bytes crc [] = crc
crc_bytes crc (b ∷ bs) = crc_bytes (crc_byte crc b) bs

-- The four lookups of a word, whose last row is `s`.
unfoldable pub lookups : ℕ → ℕ → ℕ
lookups s w =
    bit_xor
      (bit_xor
        (bit_xor (slice (suc (suc (suc s))) (bit_and w 0xff))
          (slice (suc (suc s)) (bit_and (w / 2 ^ 8) 0xff)))
        (slice (suc s) (bit_and (w / 2 ^ 16) 0xff)))
      (slice s (bit_and (w / 2 ^ 24) 0xff))

unfoldable pub block_16 : ℕ → List ℕ → ℕ
block_16 crc p =
    bit_xor
      (bit_xor
        (bit_xor (lookups 12 (bit_xor (le_bytes 4 p) crc)) (lookups 8 (le_bytes 4 (drop 4 p))))
        (lookups 4 (le_bytes 4 (drop 8 p))))
      (lookups 0 (le_bytes 4 (drop 12 p)))

unfoldable pub block_8 : ℕ → List ℕ → ℕ
block_8 crc p = bit_xor (lookups 4 (bit_xor (le_bytes 4 p) crc)) (lookups 0 (le_bytes 4 (drop 4 p)))

-- The main loop: `n` blocks of sixteen bytes, then the eight bytes and the tail.
unfoldable pub blocks : ℕ → ℕ → List ℕ → ℕ
blocks zero crc p =
    if leb 8 (length p) then crc_bytes (block_8 crc p) (drop 8 p) else crc_bytes crc p
blocks (suc n) crc p = blocks n (block_16 crc p) (drop 16 p)

unfoldable pub slice_by_16_impl : ℕ → ℕ → List ℕ → ℕ
slice_by_16_impl address crc p =
    let head = min ((8 - address % 8) % 8) (length p) in
    let rest = drop head p in blocks (length rest / 16) (crc_bytes crc (take head p)) rest

-- `~` of a 32-bit word.
unfoldable pub complement : ℕ → ℕ
complement x = 2 ^ 32 - 1 - x % 2 ^ 32

unfoldable pub crc32c_update : ℕ → ℕ → List ℕ → ℕ
crc32c_update address state bytes = complement (slice_by_16_impl address (complement state) bytes)
