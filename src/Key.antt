-- ===== src/Key.antt =====
-- include/cyclone/key.hpp and src/core/key.cpp: `CacheKey`, the 32-byte digest that names a cache
-- entry. Text and bytes are lists of numbers below 256. The digest function is an argument: the
-- build selects the bundled SHA-256 or libcrypto's. `memcpy` into an integer reads a little-endian
-- host.
pub mod Hex
use cyclone_cache.Common.{
  ℕ, zero, suc, ◌+◌, ◌-◌, ◌*◌, ◌/◌, ◌%◌, ◌^◌, ◌<◌, ◌≡◌, List, [], ◌∷◌, ◌++◌, Bool, true, false,
  ◌&&◌, bit_or, bit_and, length, drop, take, get_or, replicate, All, ltb, leb, ◌==◌, if◌then◌else◌,
}
use cyclone_cache.Common.Bytes.{le_bytes}

abbrev pub digest_size : ℕ
digest_size = 32

pub record CacheKey : Type 0 where
  pub hash : List ℕ

-- A `std::array<std::byte, 32>`.
pub record IsDigest (k : CacheKey) : Type 0 where
  pub size : length k.hash ≡ digest_size
  pub bytes : All (λ b. b < 256) k.hash

-- A default-constructed key.
abbrev pub zero_key : CacheKey
zero_key = record { hash = replicate digest_size 0 }

-- The `string_view` and span constructors, over a digest function.
unfoldable pub of_bytes : (List ℕ → List ℕ) → List ℕ → CacheKey
of_bytes sha256 bytes = record { hash = sha256 bytes }

unfoldable pub from_url : (List ℕ → List ℕ) → List ℕ → List ℕ → CacheKey
unfolding of_bytes
from_url sha256 url [] = of_bytes sha256 url
from_url sha256 url (h ∷ hostname) = of_bytes sha256 ((h ∷ hostname) ++ b'/' ∷ url)

unfoldable pub segment_hash : CacheKey → ℕ
unfolding le_bytes
segment_hash k = le_bytes 4 k.hash

unfoldable pub bucket_hash : CacheKey → ℕ
unfolding le_bytes
bucket_hash k = le_bytes 4 (drop 4 k.hash)

-- The 12-bit collision tag.
unfoldable pub key_tag : CacheKey → ℕ
unfolding le_bytes
key_tag k = bit_and (le_bytes 2 (drop 8 k.hash)) 0x0fff

-- `std::hex` with `setw(2)` and `setfill('0')`.
unfoldable pub hex_digit : ℕ → ℕ
hex_digit n = if ltb n 10 then b'0' + n else b'a' + (n - 10)

unfoldable pub hex_of_bytes : List ℕ → List ℕ
unfolding hex_digit
hex_of_bytes [] = []
hex_of_bytes (b ∷ bs) = hex_digit (b / 16) ∷ hex_digit (b % 16) ∷ hex_of_bytes bs

unfoldable pub to_hex : CacheKey → List ℕ
unfolding hex_of_bytes
to_hex k = hex_of_bytes k.hash

unfoldable pub from_hex_char : ℕ → ℕ
from_hex_char c =
    if leb b'0' c && leb c b'9'
    then c - b'0'
    else if leb b'a' c && leb c b'f'
    then 10 + c - b'a'
    else if leb b'A' c && leb c b'F'
    then 10 + c - b'A'
    else 0

-- The loop over `hex[i * 2]` and `hex[i * 2 + 1]`, for `n` bytes.
unfoldable pub bytes_of_hex : ℕ → List ℕ → List ℕ
unfolding from_hex_char
bytes_of_hex zero cs = []
bytes_of_hex (suc n) cs =
    bit_or (from_hex_char (get_or cs 0 0) * 2 ^ 4) (from_hex_char (get_or cs 1 0))
    ∷ bytes_of_hex n (drop 2 cs)

unfoldable pub from_hex : List ℕ → CacheKey
unfolding bytes_of_hex
from_hex hex =
    if length hex == digest_size * 2
    then record { hash = bytes_of_hex digest_size hex }
    else zero_key

-- `_hash == other._hash`, and `is_zero`.
unfoldable pub same_bytes : List ℕ → List ℕ → Bool
same_bytes [] [] = true
same_bytes (a ∷ as') (b ∷ bs) = a == b && same_bytes as' bs
same_bytes [] (b ∷ bs) = false
same_bytes (a ∷ as') [] = false

unfoldable pub is_zero : CacheKey → Bool
unfolding same_bytes
is_zero k = same_bytes k.hash (replicate digest_size 0)
