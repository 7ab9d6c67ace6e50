-- ===== src/Tests/Keys.antt =====
-- Keys on concrete digests.
use cyclone_cache.Common.{ℕ, ◌+◌, ◌*◌, ◌++◌, take, ◌^◌, ◌<◌, ◌≡◌, refl, [], ◌∷◌, arith, replicate}
use cyclone_cache.Key.{
  CacheKey, IsDigest, to_hex, from_hex, key_tag, segment_hash, bucket_hash, from_url,
}
use cyclone_cache.Common.Bytes.{to_le}
use cyclone_cache.Key.Hex.{from_hex-to_hex, to_hex-from_hex, hashes_split}

abbrev digest : CacheKey
digest = record { hash = 0xde ∷ 0xad ∷ 0xbe ∷ 0xef ∷ 1 ∷ 2 ∷ 3 ∷ 4 ∷ 0xff ∷ 0xfa ∷ replicate 22 7 }

abbrev digest-IsDigest : IsDigest digest
digest-IsDigest = record { size = refl; bytes = omega arith }

hashes :
    (segment_hash digest ≡ 0xefbeadde)
    × (bucket_hash digest ≡ 0x04030201)
    × (key_tag digest ≡ 0xaff)
unfolding segment_hash bucket_hash key_tag
hashes = (refl, refl, refl)

joined : (from_url (λ bs. bs) (b'/' ∷ b'a' ∷ []) (b'h' ∷ [])).hash ≡ b'h' ∷ b'/' ∷ b'/' ∷ b'a' ∷ []
unfolding from_url
joined = refl

from_hex-to_hex_example : from_hex (to_hex digest) ≡ digest
from_hex-to_hex_example = from_hex-to_hex digest digest-IsDigest

mixed_text :
    to_hex (from_hex (b'A' ∷ b'7' ∷ b'z' ∷ b'f' ∷ replicate 60 b'e'))
    ≡ b'a' ∷ b'7' ∷ b'0' ∷ b'f' ∷ replicate 60 b'e'
mixed_text = to_hex-from_hex (b'A' ∷ b'7' ∷ b'z' ∷ b'f' ∷ replicate 60 b'e')

hashes_split_example :
    (segment_hash digest < 2 ^ 32)
    × (bucket_hash digest < 2 ^ 32)
    × (key_tag digest < 2 ^ 12)
    × (top : ℕ) × (top < 16)
    × (take 10 digest.hash
        ≡ to_le 4 (segment_hash digest)
          ++ (to_le 4 (bucket_hash digest) ++ to_le 2 (key_tag digest + 4096 * top)))
hashes_split_example = hashes_split digest digest-IsDigest
