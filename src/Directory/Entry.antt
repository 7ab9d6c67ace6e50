-- ===== src/Directory/Entry.antt =====
-- src/core/directory.hpp, src/core/directory.cpp: `DirEntry`, the 10-byte packed directory entry,
-- as its five 16-bit words with the masks and shifts of the source. `~mask` is written out over
-- 16 bits: the words are promoted to int, and only their low 16 bits survive the mask.
pub mod Words
pub mod Fields
pub mod Size
use cyclone_cache.Common.{
  ℕ, ◌+◌, ◌-◌, ◌*◌, ◌/◌, ◌%◌, ◌^◌, bit_and, bit_or, Bool, true, false, not, ◌&&◌, ltb, ◌==◌,
  if◌then◌else◌,
}

pub record DirEntry : Type 0 where
  pub w0 : ℕ
  pub w1 : ℕ
  pub w2 : ℕ
  pub w3 : ℕ
  pub w4 : ℕ

-- `x << k` and `x >> k`.
infixl 60 ◌<<<◌ ◌>>>◌
abbrev pub ◌<<<◌ : ℕ → ℕ → ℕ
x <<< k = x * 2 ^ k

abbrev pub ◌>>>◌ : ℕ → ℕ → ℕ
x >>> k = x / 2 ^ k

-- `static_cast<uint16_t>` and `static_cast<uint8_t>`.
abbrev pub u16 : ℕ → ℕ
u16 x = x % 2 ^ 16

abbrev pub u8 : ℕ → ℕ
u8 x = x % 2 ^ 8

-- `~m` over 16 bits.
abbrev pub not16 : ℕ → ℕ
not16 m = 0xffff - m

unfoldable pub offset : DirEntry → ℕ
offset e = bit_or (bit_or e.w0 (bit_and e.w1 0xff <<< 16)) (e.w4 <<< 24)

unfoldable pub set_offset : ℕ → DirEntry → DirEntry
set_offset o e = record e {
  w0 = u16 (bit_and o 0xffff);
  w1 = u16 (bit_or (bit_and e.w1 0xff00) (bit_and (o >>> 16) 0xff));
  w4 = u16 (bit_and (o >>> 24) 0xffff);
}

unfoldable pub big : DirEntry → ℕ
big e = u8 (bit_and (e.w1 >>> 8) 0x03)

unfoldable pub set_big : ℕ → DirEntry → DirEntry
set_big b e = record e { w1 = u16 (bit_or (bit_and e.w1 (not16 0x0300)) (bit_and b 0x03 <<< 8)) }

unfoldable pub size : DirEntry → ℕ
size e = u8 (bit_and (e.w1 >>> 10) 0x3f)

unfoldable pub set_size : ℕ → DirEntry → DirEntry
set_size s e = record e { w1 = u16 (bit_or (bit_and e.w1 0x03ff) (bit_and s 0x3f <<< 10)) }

unfoldable pub tag : DirEntry → ℕ
tag e = bit_and e.w2 0x0fff

unfoldable pub set_tag : ℕ → DirEntry → DirEntry
set_tag t e = record e { w2 = u16 (bit_or (bit_and e.w2 0xf000) (bit_and t 0x0fff)) }

unfoldable pub phase : DirEntry → Bool
phase e = not (bit_and (e.w2 >>> 12) 0x01 == 0)

unfoldable pub set_phase : Bool → DirEntry → DirEntry
set_phase p e = record e {
  w2 = u16 (bit_or (bit_and e.w2 (not16 0x1000)) (if p then 0x1000 else 0));
}

unfoldable pub head : DirEntry → Bool
head e = not (bit_and (e.w2 >>> 13) 0x01 == 0)

unfoldable pub set_head : Bool → DirEntry → DirEntry
set_head h e = record e {
  w2 = u16 (bit_or (bit_and e.w2 (not16 0x2000)) (if h then 0x2000 else 0));
}

unfoldable pub pinned : DirEntry → Bool
pinned e = not (bit_and (e.w2 >>> 14) 0x01 == 0)

unfoldable pub set_pinned : Bool → DirEntry → DirEntry
set_pinned p e = record e {
  w2 = u16 (bit_or (bit_and e.w2 (not16 0x4000)) (if p then 0x4000 else 0));
}

unfoldable pub fill_serial : DirEntry → ℕ
fill_serial e = e.w3

-- The argument is a `uint16_t`.
unfoldable pub set_fill_serial : ℕ → DirEntry → DirEntry
set_fill_serial s e = record e { w3 = s }

unfoldable pub is_empty : DirEntry → Bool
is_empty e = offset e == 0

-- A default-constructed entry, and what `clear` leaves: all words 0.
abbrev pub cleared : DirEntry
cleared = record { w0 = 0; w1 = 0; w2 = 0; w3 = 0; w4 = 0 }

-- The largest size that `b` can encode, in bytes: `(63 + 1) * kBlockSize * (1ULL << b)`.
abbrev pub block_size : ℕ
block_size = 512

unfoldable pub approx_size : DirEntry → ℕ
approx_size e = (size e + 1) * block_size <<< big e

-- The loop of `set_approx_size`; `left` counts the rounds that `b < 3` still allows.
unfoldable pub scale : ℕ → ℕ → ℕ → ℕ
scale Prim.Native.Nat.ℕ.zero b bytes = b
scale (Prim.Native.Nat.ℕ.suc left) b bytes =
    let rest = scale left (b + 1) bytes in
    if ltb ((63 + 1) * block_size * (1 <<< b)) bytes && ltb b 3 then rest else b

-- `blocks`, rounded up, then clamped to [1, 64]. The sum `bytes + block - 1` is a uint64_t.
unfoldable pub blocks_for : ℕ → ℕ → ℕ
blocks_for bytes block =
    let n = (bytes + block - 1) % 2 ^ 64 / block in
    let n' = if n == 0 then 1 else n in if ltb 64 n' then 64 else n'

unfoldable pub set_approx_size : ℕ → DirEntry → DirEntry
set_approx_size bytes e =
    let b = scale 3 0 bytes in
    let blocks = blocks_for bytes (block_size <<< b) in set_size (u8 (blocks - 1)) (set_big b e)
