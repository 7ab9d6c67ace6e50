-- ===== src/Crc32c/Chunks.antt =====
-- src/core/crc32c.cpp: the whole kernel, and the checksum of data that arrives in chunks.
use cyclone_cache.Common.{
  ℕ, zero, suc, ◌-◌, ◌/◌, ◌%◌, ◌^◌, ◌<◌, ◌≡◌, refl, ap, sym, subst, ◌∙◌, List, [], ◌∷◌, ◌++◌,
  bit_xor, length, take, drop, min, All, All-drop, All-take, All-append, length-drop, leb, inl, inr,
  Bool-cases, arith,
}
use cyclone_cache.Common.Splices.{take-append-drop}
use cyclone_cache.Crc32c.{
  rounds, crc_bytes, block_16, blocks, slice_by_16_impl, complement, crc32c_update,
}
use cyclone_cache.Crc32c.Kernel.{
  divide, crc_bytes-divide, crc_bytes-lt, crc_bytes-append, block_16_sum, block_8_sum, block_16-lt,
}

-- `n` is the number of whole blocks of sixteen bytes.
blocks_lem :
    (n crc : ℕ) (p : List ℕ)
    → n ≡ length p / 16
    → crc < 2 ^ 32
    → All (λ b. b < 256) p
    → blocks n crc p ≡ crc_bytes crc p
unfolding blocks
blocks_lem zero crc p e small bytes = elim (Bool-cases (leb 8 (length p))) [
  | inl long ↦ rw long (block_8_sum crc p small bytes (length p - 8) (ground arith))
  | inr short ↦ rw short refl
]
blocks_lem (suc n) crc p e small bytes =
    blocks_lem n (block_16 crc p) (drop 16 p) (omega (arith, length-drop 16 p))
      (block_16-lt crc p small bytes) (All-drop (λ b. b < 256) 16 p bytes)
    ∙ block_16_sum crc p small bytes (length p - 16) (omega arith)

-- The kernel, from any alignment of its data, divides by the polynomial bit by bit: the head up to
-- an 8-byte boundary, the blocks of sixteen bytes with their table rows, the block of eight and the
-- tail together do what the definition does on each byte. The register has 32 bits and the data are
-- bytes.
pub slice_by_16_impl-divide :
    (address crc : ℕ) (p : List ℕ)
    → crc < 2 ^ 32
    → All (λ b. b < 256) p
    → slice_by_16_impl address crc p ≡ divide crc p
unfolding slice_by_16_impl
slice_by_16_impl-divide address crc p small bytes =
    let head = min ((8 - address % 8) % 8) (length p) in
    let crc' = crc_bytes crc (take head p) in
    blocks_lem (length (drop head p) / 16) crc' (drop head p) refl
      (crc_bytes-lt crc (take head p) small (All-take (λ b. b < 256) head p bytes))
      (All-drop (λ b. b < 256) head p bytes)
    ∙ sym (crc_bytes-append crc (take head p) (drop head p))
    ∙ ap (crc_bytes crc) (take-append-drop head p)
    ∙ crc_bytes-divide crc p bytes

complement_twice : (x : ℕ) → x < 2 ^ 32 → complement (complement x) ≡ x
unfolding complement
complement_twice x h = omega arith

pub complement-lt : (x : ℕ) → complement x < 2 ^ 32
unfolding complement
complement-lt x = omega arith

divide-append : (crc : ℕ) (as' bs : List ℕ) → divide crc (as' ++ bs) ≡ divide (divide crc as') bs
unfolding divide
divide-append crc [] bs = refl
divide-append crc (a ∷ as') bs = divide-append (rounds 8 (bit_xor crc a)) as' bs

-- Data may arrive in chunks: the checksum of two chunks, each at its own address, is that of their
-- concatenation at any address. The data are bytes.
pub crc32c_update-append :
    (i j k state : ℕ) (as' bs : List ℕ)
    → All (λ b. b < 256) as'
    → All (λ b. b < 256) bs
    → crc32c_update j (crc32c_update i state as') bs ≡ crc32c_update k state (as' ++ bs)
unfolding crc32c_update
crc32c_update-append i j k state as' bs ha hb =
    let first = slice_by_16_impl-divide i (complement state) as' (complement-lt state) ha in
    let small : divide (complement state) as' < 2 ^ 32 =
      subst (λ (x : ℕ). x < 2 ^ 32) (crc_bytes-divide (complement state) as' ha)
        (crc_bytes-lt (complement state) as' (complement-lt state) ha) in
    rw
      (
        first,
        complement_twice (divide (complement state) as') small,
        slice_by_16_impl-divide j (divide (complement state) as') bs small hb,
        slice_by_16_impl-divide k (complement state) (as' ++ bs) (complement-lt state)
            (All-append (λ b. b < 256) as' bs ha hb),
        divide-append (complement state) as' bs,
      )
      refl
