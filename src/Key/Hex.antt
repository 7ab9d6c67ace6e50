-- ===== src/Key/Hex.antt =====
-- Keys and their hexadecimal text.
use native.Mathlib.Nat.{suc-add}
use cyclone_cache.Common.Splices.{drop-drop}
use cyclone_cache.Common.{
  ℕ, zero, suc, ◌*◌, ◌/◌, ◌%◌, ◌<◌, ◌≡◌, ◌^◌, drop, All-drop, refl, ap, ap₂, ◌∙◌, inl, inr, ◌+◌,
  ◌++◌, take, map, replicate, leb, ◌==◌, ◌&&◌, ◌||◌, if◌then◌else◌, Bool-cases, length-drop, List,
  [], ◌∷◌, arith, length, All, ==_iff, bit_or,
}
use cyclone_cache.Common.Bits.{bit_or-low, bit_and-low}
use cyclone_cache.Common.Bytes.{le_bytes, to_le, le_bytes-lt, to_le-le_bytes}
use cyclone_cache.Key.{
  CacheKey, IsDigest, digest_size, to_hex, from_hex, hex_of_bytes, bytes_of_hex, hex_digit,
  from_hex_char, key_tag, segment_hash, bucket_hash,
}

from_hex_char-hex_digit : (n : ℕ) → n < 16 → from_hex_char (hex_digit n) ≡ n
unfolding from_hex_char hex_digit
from_hex_char-hex_digit n h = ground arith

byte_of_digits :
    (b : ℕ)
    → b < 256
    → bit_or (from_hex_char (hex_digit (b / 16)) * 16) (from_hex_char (hex_digit (b % 16))) ≡ b
byte_of_digits b h =
    rw
      (
        from_hex_char-hex_digit (b / 16) (omega arith),
        from_hex_char-hex_digit (b % 16) (omega arith),
      )
      (omega (arith, bit_or-low 4 (b / 16) (b % 16)))

length-hex_of_bytes : (bs : List ℕ) → length (hex_of_bytes bs) ≡ length bs * 2
unfolding hex_of_bytes
length-hex_of_bytes [] = refl
length-hex_of_bytes (b ∷ bs) = omega (arith, length-hex_of_bytes bs)

bytes_of_hex-hex_of_bytes :
    (n : ℕ) (bs : List ℕ)
    → length bs ≡ n
    → All (λ b. b < 256) bs
    → bytes_of_hex n (hex_of_bytes bs) ≡ bs
unfolding bytes_of_hex hex_of_bytes
bytes_of_hex-hex_of_bytes zero [] e h = refl
bytes_of_hex-hex_of_bytes zero (b ∷ bs) e h = absurd (omega arith)
bytes_of_hex-hex_of_bytes (suc n) [] e h = absurd (omega arith)
bytes_of_hex-hex_of_bytes (suc n) (b ∷ bs) e h =
    ap₂ ◌∷◌ (byte_of_digits b h.0) (bytes_of_hex-hex_of_bytes n bs (omega arith) h.1)

-- Printing a digest in hexadecimal and parsing the text gives the key back.
pub from_hex-to_hex : (k : CacheKey) → IsDigest k → from_hex (to_hex k) ≡ k
unfolding from_hex to_hex
from_hex-to_hex k d =
    rw
      ((==_iff (length (hex_of_bytes k.hash)) 64).1
        (omega (arith, length-hex_of_bytes k.hash, d.size)))
      (λ i. record { hash = bytes_of_hex-hex_of_bytes digest_size k.hash d.size d.bytes i })

-- The digit that a character of a text stands for, in lower case; one that is no digit stands for zero.
abbrev pub shown : ℕ → ℕ
shown c =
    if leb b'0' c && leb c b'9' || leb b'a' c && leb c b'f'
    then c
    else if leb b'A' c && leb c b'F'
    then c + 32
    else b'0'

hex_digit-from_hex_char : (c : ℕ) → (from_hex_char c < 16) × (hex_digit (from_hex_char c) ≡ shown c)
unfolding from_hex_char hex_digit
hex_digit-from_hex_char c = (ground arith, ground arith)

digits_of_byte :
    (a b : ℕ) → a < 16 → b < 16 → (bit_or (a * 2 ^ 4) b / 16 ≡ a) × (bit_or (a * 2 ^ 4) b % 16 ≡ b)
digits_of_byte a b h k = (omega (arith, bit_or-low 4 a b), omega (arith, bit_or-low 4 a b))

hex_of_bytes-bytes_of_hex :
    (n : ℕ) (cs : List ℕ) → length cs ≡ n * 2 → hex_of_bytes (bytes_of_hex n cs) ≡ map shown cs
unfolding hex_of_bytes bytes_of_hex
hex_of_bytes-bytes_of_hex zero [] h = refl
hex_of_bytes-bytes_of_hex zero (c ∷ cs) h = absurd (omega arith)
hex_of_bytes-bytes_of_hex (suc n) [] h = absurd (omega arith)
hex_of_bytes-bytes_of_hex (suc n) (c ∷ []) h = absurd (omega arith)
hex_of_bytes-bytes_of_hex (suc n) (c ∷ e ∷ cs) h =
    let (small, high) = hex_digit-from_hex_char c in
    let (small', low) = hex_digit-from_hex_char e in
    let (left, right) = digits_of_byte (from_hex_char c) (from_hex_char e) small small' in
    ap₂ ◌∷◌ (ap hex_digit left ∙ high)
      (ap₂ ◌∷◌ (ap hex_digit right ∙ low) (hex_of_bytes-bytes_of_hex n cs (omega arith)))

pub to_hex-from_hex :
    (cs : List ℕ)
    → to_hex (from_hex cs)
      ≡ (if length cs == digest_size * 2 then map shown cs else replicate 64 b'0')
unfolding from_hex to_hex hex_of_bytes hex_digit
to_hex-from_hex cs = elim (Bool-cases (length cs == digest_size * 2)) [
  | inl whole ↦
      rw whole (hex_of_bytes-bytes_of_hex digest_size cs ((==_iff (length cs) 64).0 whole))
  | inr other ↦ rw other refl
]

pub key_tag-lt : (k : CacheKey) → key_tag k < 2 ^ 12
unfolding key_tag
key_tag-lt k = omega (arith, bit_and-low 12 (le_bytes 2 (drop 8 k.hash)))

take-split : (n m : ℕ) (xs : List ℕ) → take (n + m) xs ≡ take n xs ++ take m (drop n xs)
take-split zero m xs = ground arith
take-split (suc n) zero [] = rw suc-add refl
take-split (suc n) (suc m) [] = rw suc-add refl
take-split (suc n) m (x ∷ xs) = rw suc-add (ap (◌∷◌ x) (take-split n m xs))

-- The first ten bytes of a digest are the segment hash, the bucket hash, and the tag with four bits above
-- it, each a little-endian number of its own bytes; the hashes are 32-bit numbers, and the tag has 12 bits.
pub hashes_split :
    (k : CacheKey)
    → IsDigest k
    → (segment_hash k < 2 ^ 32)
      × (bucket_hash k < 2 ^ 32)
      × (key_tag k < 2 ^ 12)
      × (top : ℕ) × (top < 16)
      × (take 10 k.hash
          ≡ to_le 4 (segment_hash k)
            ++ (to_le 4 (bucket_hash k) ++ to_le 2 (key_tag k + 4096 * top)))
unfolding segment_hash bucket_hash key_tag
hashes_split k d =
    let raw = le_bytes 2 (drop 8 k.hash) in
    let word : raw < 256 ^ 2 = le_bytes-lt 2 (drop 8 k.hash) (All-drop _ 8 k.hash d.bytes) in
    let tag : key_tag k + 4096 * (raw / 4096) ≡ raw = omega (arith, bit_and-low 12 raw) in
    (
      le_bytes-lt 4 k.hash d.bytes,
      le_bytes-lt 4 (drop 4 k.hash) (All-drop _ 4 k.hash d.bytes),
      key_tag-lt k,
      raw / 4096,
      omega (arith, word),
      rw
          (
            tag,
            to_le-le_bytes 4 k.hash (omega (arith, d.size)) d.bytes,
            to_le-le_bytes 4 (drop 4 k.hash) (omega (arith, d.size, length-drop 4 k.hash))
                (All-drop _ 4 k.hash d.bytes),
            to_le-le_bytes 2 (drop 8 k.hash) (omega (arith, d.size, length-drop 8 k.hash))
                (All-drop _ 8 k.hash d.bytes),
          )
          (take-split 4 6 k.hash
            ∙ ap (◌++◌ (take 4 k.hash)) (
                take-split 4 2 (drop 4 k.hash)
                ∙ ap (λ (xs : List ℕ). take 4 (drop 4 k.hash) ++ take 2 xs)
                    (drop-drop 4 4 k.hash))),
    )
