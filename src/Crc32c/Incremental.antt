-- ===== src/Crc32c/Incremental.antt =====
-- src/core/crc32c.hpp: the checksum as its callers see it, and the portable kernel as one.
use cyclone_cache.Common.{ℕ, ◌^◌, ◌<◌, ◌≡◌, List, ◌++◌, All}
use cyclone_cache.Crc32c.{crc32c_update}
use cyclone_cache.Crc32c.Chunks.{complement-lt, crc32c_update-append}

-- `crc32c_update`: a 32-bit state, and chunking is transparent.
pub record Crc32c : Type 0 where
  pub update : ℕ → List ℕ → ℕ
  pub update-lt : (s : ℕ) (bytes : List ℕ) → update s bytes < 2 ^ 32
  pub update-append :
      (s : ℕ) (as' bs : List ℕ)
      → All (λ b. b < 256) as'
      → All (λ b. b < 256) bs
      → update (update s as') bs ≡ update s (as' ++ bs)

pub update_0-lt : (s : ℕ) (bytes : List ℕ) → crc32c_update 0 s bytes < 2 ^ 32
unfolding crc32c_update
update_0-lt s bytes = complement-lt _

abbrev pub portable : Crc32c
portable = record {
  update = crc32c_update 0;
  update-lt = update_0-lt;
  update-append = crc32c_update-append 0 0 0;
}
