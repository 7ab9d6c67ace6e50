-- ===== src/Crc32c/Kernel.antt =====
-- src/core/crc32c.cpp: the blocks of the kernel, the loop over single bytes and the division by
-- the polynomial, bit by bit.
use cyclone_cache.Common.{
  ℕ, zero, suc, ◌+◌, ◌^◌, ◌<◌, ◌≤◌, ◌≡◌, refl, ap, sym, ◌∙◌, List, [], ◌∷◌, ◌++◌, bit_xor, length,
  drop, All, All-drop, length-drop, arith,
}
use cyclone_cache.Common.Splices.{drop-drop}
use cyclone_cache.Common.Bytes.{le_bytes, le_bytes-lt}
use cyclone_cache.Common.Xor.{bit_xor-lt, bit_xor_comm, bit_xor_assoc}
use cyclone_cache.Crc32c.{rounds, crc_byte, crc_bytes, lookups, block_16, block_8}
use cyclone_cache.Crc32c.Registers.{
  zeros, zeros-bit_xor, contribution, crc_bytes_sum, crc_byte-rounds, rounds-lt,
}
use cyclone_cache.Crc32c.Slices.{zeros-zeros, lookups-zeros, contribution_word, xor-right}

-- The definition of the checksum: each byte is added to the register, which then advances by
-- eight rounds of the division.
unfoldable pub divide : ℕ → List ℕ → ℕ
divide crc [] = crc
divide crc (b ∷ bs) = divide (rounds 8 (bit_xor crc b)) bs

pub crc_bytes-divide :
    (crc : ℕ) (bs : List ℕ) → All (λ b. b < 256) bs → crc_bytes crc bs ≡ divide crc bs
unfolding crc_bytes divide
crc_bytes-divide crc [] h = refl
crc_bytes-divide crc (b ∷ bs) h =
    rw (crc_byte-rounds crc b h.0) (crc_bytes-divide (rounds 8 (bit_xor crc b)) bs h.1)

crc_byte-lt : (crc b : ℕ) → crc < 2 ^ 32 → b < 256 → crc_byte crc b < 2 ^ 32
crc_byte-lt crc b h hb =
    rw (crc_byte-rounds crc b hb)
      (rounds-lt 8 (bit_xor crc b) (bit_xor-lt 32 crc b h (omega arith)))

pub crc_bytes-lt :
    (crc : ℕ) (bs : List ℕ) → crc < 2 ^ 32 → All (λ b. b < 256) bs → crc_bytes crc bs < 2 ^ 32
unfolding crc_bytes
crc_bytes-lt crc [] h k = h
crc_bytes-lt crc (b ∷ bs) h k = crc_bytes-lt (crc_byte crc b) bs (crc_byte-lt crc b h k.0) k.1

pub crc_bytes-append :
    (crc : ℕ) (as' bs : List ℕ) → crc_bytes crc (as' ++ bs) ≡ crc_bytes (crc_bytes crc as') bs
unfolding crc_bytes
crc_bytes-append crc [] bs = refl
crc_bytes-append crc (a ∷ as') bs = crc_bytes-append (crc_byte crc a) as' bs

advance_word :
    (m s w : ℕ) → w < 2 ^ 32 → zeros m (lookups s w) ≡ zeros (m + suc (suc (suc (suc s)))) w
advance_word m s w h = rw (lookups-zeros s w h) (zeros-zeros m (suc (suc (suc (suc s)))) w)

zeros-lt : (k x : ℕ) → x < 2 ^ 32 → zeros k x < 2 ^ 32
unfolding zeros
zeros-lt zero x h = h
zeros-lt (suc k) x h = rounds-lt 8 (zeros k x) (zeros-lt k x h)

lookups-lt : (s w : ℕ) → w < 2 ^ 32 → lookups s w < 2 ^ 32
lookups-lt s w h = rw (lookups-zeros s w h) (zeros-lt (suc (suc (suc (suc s)))) w h)

regroup_2 :
    (b k a c : ℕ) → bit_xor (bit_xor (bit_xor b k) a) c ≡ bit_xor k (bit_xor b (bit_xor a c))
regroup_2 b k a c =
    bit_xor_assoc (bit_xor b k) a c
    ∙ ap (λ (x : ℕ). bit_xor x (bit_xor a c)) (bit_xor_comm b k)
    ∙ bit_xor_assoc k b (bit_xor a c)

regroup :
    (b k a₁ a₂ a₃ c : ℕ)
    → bit_xor (bit_xor (bit_xor (bit_xor (bit_xor b k) a₁) a₂) a₃) c
      ≡ bit_xor k (bit_xor b (bit_xor a₁ (bit_xor a₂ (bit_xor a₃ c))))
regroup b k a₁ a₂ a₃ c =
    xor-right (bit_xor (bit_xor b k) a₁) a₂ a₃ c ∙ regroup_2 b k a₁ (bit_xor a₂ (bit_xor a₃ c))

zeros-four :
    (m a b c d : ℕ)
    → zeros m (bit_xor (bit_xor (bit_xor a b) c) d)
      ≡ bit_xor (bit_xor (bit_xor (zeros m a) (zeros m b)) (zeros m c)) (zeros m d)
zeros-four m a b c d =
    rw
      (
        zeros-bit_xor m (bit_xor (bit_xor a b) c) d,
        zeros-bit_xor m (bit_xor a b) c,
        zeros-bit_xor m a b,
      )
      refl

module _ (crc : ℕ) (p : List ℕ) (small : crc < 2 ^ 32) (bytes : All (λ b. b < 256) p) where
  word-lt : (n : ℕ) → le_bytes 4 (drop n p) < 2 ^ 32
  word-lt n = le_bytes-lt 4 (drop n p) (All-drop (λ b. b < 256) n p bytes)

  first_word-lt : bit_xor (le_bytes 4 p) crc < 2 ^ 32
  first_word-lt = bit_xor-lt 32 (le_bytes 4 p) crc (le_bytes-lt 4 p bytes) small

  -- The word at `n`, advanced to the end, is what its bytes contribute.
  word_at :
      (n d : ℕ)
      → n + d ≡ length p
      → 4 ≤ d
      → contribution (drop n p)
        ≡ bit_xor (zeros d (le_bytes 4 (drop n p))) (contribution (drop (n + 4) p))
  word_at n d e h =
      let len : length (drop n p) ≡ d = omega (arith, length-drop n p) in
      contribution_word (drop n p) (omega (arith, len)) (All-drop (λ b. b < 256) n p bytes)
      ∙ rw (len, drop-drop 4 n p) refl

  pub block_16_sum :
      (m : ℕ) → m + 16 ≡ length p → crc_bytes (block_16 crc p) (drop 16 p) ≡ crc_bytes crc p
  unfolding block_16
  block_16_sum m e =
      let len : length (drop 16 p) ≡ m = omega (arith, length-drop 16 p) in
      let words =
        word_at 0 (m + 16) (omega arith) (omega arith)
        ∙ ap (bit_xor _) (
            word_at 4 (m + 12) (omega arith) (omega arith)
            ∙ ap (bit_xor _) (
                word_at 8 (m + 8) (omega arith) (omega arith)
                ∙ ap (bit_xor _) (word_at 12 (m + 4) (omega arith) (omega arith)))) in
      crc_bytes_sum (block_16 crc p) (drop 16 p) (All-drop (λ b. b < 256) 16 p bytes)
      ∙ rw
          (
            len,
            zeros-four m,
            advance_word m 12 _ first_word-lt,
            advance_word m 8 _ (word-lt 4),
            advance_word m 4 _ (word-lt 8),
            advance_word m 0 _ (word-lt 12),
            zeros-bit_xor (m + 16) (le_bytes 4 p) crc,
          )
          (regroup _ _ _ _ _ _
            ∙ ap (bit_xor (zeros (m + 16) crc)) (sym words)
            ∙ ap (λ (n : ℕ). bit_xor (zeros n crc) (contribution p)) e
            ∙ sym (crc_bytes_sum crc p bytes))

  pub block_8_sum :
      (m : ℕ) → m + 8 ≡ length p → crc_bytes (block_8 crc p) (drop 8 p) ≡ crc_bytes crc p
  unfolding block_8
  block_8_sum m e =
      let len : length (drop 8 p) ≡ m = omega (arith, length-drop 8 p) in
      let words =
        word_at 0 (m + 8) (omega arith) (omega arith)
        ∙ ap (bit_xor _) (word_at 4 (m + 4) (omega arith) (omega arith)) in
      crc_bytes_sum (block_8 crc p) (drop 8 p) (All-drop (λ b. b < 256) 8 p bytes)
      ∙ rw
          (
            len,
            zeros-bit_xor m (lookups 4 (bit_xor (le_bytes 4 p) crc)),
            advance_word m 4 _ first_word-lt,
            advance_word m 0 _ (word-lt 4),
            zeros-bit_xor (m + 8) (le_bytes 4 p) crc,
          )
          (regroup_2 _ _ _ _
            ∙ ap (bit_xor (zeros (m + 8) crc)) (sym words)
            ∙ ap (λ (n : ℕ). bit_xor (zeros n crc) (contribution p)) e
            ∙ sym (crc_bytes_sum crc p bytes))

  pub block_16-lt : block_16 crc p < 2 ^ 32
  unfolding block_16
  block_16-lt =
      bit_xor-lt 32 _ _
        (bit_xor-lt 32 _ _
          (bit_xor-lt 32 _ _ (lookups-lt 12 _ first_word-lt) (lookups-lt 8 _ (word-lt 4)))
          (lookups-lt 4 _ (word-lt 8)))
        (lookups-lt 0 _ (word-lt 12))

  pub block_8-lt : block_8 crc p < 2 ^ 32
  unfolding block_8
  block_8-lt = bit_xor-lt 32 _ _ (lookups-lt 4 _ first_word-lt) (lookups-lt 0 _ (word-lt 4))
