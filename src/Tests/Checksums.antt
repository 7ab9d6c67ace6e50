-- ===== src/Tests/Checksums.antt =====
-- The checksum on concrete data.
use cyclone_cache.Common.{◌≡◌, refl, List, ℕ, [], ◌∷◌, ◌++◌, arith}
use cyclone_cache.Crc32c.{
  crc32c_update, slice_by_16_impl, blocks, crc_bytes, crc_byte, slice, rounds, bit_round,
  complement, lookups, block_8,
}
use cyclone_cache.Common.Bytes.{le_bytes}
use cyclone_cache.Crc32c.Kernel.{divide}
use cyclone_cache.Crc32c.Chunks.{slice_by_16_impl-divide, crc32c_update-append}

-- "123456789".
abbrev digits : List ℕ
digits = 0x31 ∷ 0x32 ∷ 0x33 ∷ 0x34 ∷ 0x35 ∷ 0x36 ∷ 0x37 ∷ 0x38 ∷ 0x39 ∷ []

check_value : crc32c_update 0 0 digits ≡ 0xE3069283
unfolding crc32c_update slice_by_16_impl blocks crc_bytes crc_byte slice rounds bit_round complement
    lookups block_8 le_bytes
check_value = refl

slice_by_16_impl-divide_example :
    slice_by_16_impl 5 0xffffffff (digits ++ digits ++ digits ++ digits)
    ≡ divide 0xffffffff (digits ++ digits ++ digits ++ digits)
slice_by_16_impl-divide_example =
    slice_by_16_impl-divide 5 0xffffffff (digits ++ digits ++ digits ++ digits) (omega arith)
      (omega arith)

crc32c_update-append_example :
    crc32c_update 7 (crc32c_update 3 0 digits) digits ≡ crc32c_update 0 0 (digits ++ digits)
crc32c_update-append_example =
    crc32c_update-append 3 7 0 0 digits digits (omega arith) (omega arith)
