-- ===== src/Directory/Entry/Size.antt =====
-- `set_approx_size` and `approx_size`: the size code that an entry carries.
use cyclone_cache.Common.{
  ℕ, ◌+◌, ◌-◌, ◌*◌, ◌^◌, ◌≤◌, ◌<◌, ◌≡◌, refl, ◌⊎◌, inl, inr, arith, ap, ◌∙◌, min,
}
use cyclone_cache.Directory.Entry.{
  DirEntry, approx_size, set_approx_size, scale, blocks_for, block_size,
}
use cyclone_cache.Directory.Entry.Words.{IsPacked}
use cyclone_cache.Directory.Entry.Fields.{
  fields, fields-set_big, fields-set_size, set_big-IsPacked, set_size-IsPacked,
}

-- The exponent is the least one whose 64 blocks hold the size, and 3 at most.
scale_cases :
    (bytes : ℕ)
    → ((scale 3 0 bytes ≡ 0) × (bytes ≤ 32768))
      ⊎ ((scale 3 0 bytes ≡ 1) × (32768 < bytes) × (bytes ≤ 65536))
      ⊎ ((scale 3 0 bytes ≡ 2) × (65536 < bytes) × (bytes ≤ 131072))
      ⊎ ((scale 3 0 bytes ≡ 3) × (131072 < bytes))
unfolding scale
scale_cases bytes = ground arith

blocks_for_range : (bytes block : ℕ) → (1 ≤ blocks_for bytes block) × (blocks_for bytes block ≤ 64)
unfolding blocks_for
blocks_for_range bytes block = ground arith

module _ (e : DirEntry) (p : IsPacked e) (bytes : ℕ) where
  pub set_approx_size-IsPacked : IsPacked (set_approx_size bytes e)
  unfolding set_approx_size
  set_approx_size-IsPacked = set_size-IsPacked _ (set_big-IsPacked e p _) _

  pub fields-set_approx_size : fields (set_approx_size bytes e) ≡ record (fields e) {
    big = scale 3 0 bytes;
    size = blocks_for bytes (block_size * 2 ^ scale 3 0 bytes) - 1;
  }
  unfolding set_approx_size
  fields-set_approx_size =
      fields-set_size _ (set_big-IsPacked e p _) _
      ∙ rw (fields-set_big e p _) (
          ground
            (arith, scale_cases bytes, blocks_for_range bytes (block_size * 2 ^ scale 3 0 bytes)))

  approx_size-set_approx_size :
      approx_size (set_approx_size bytes e)
      ≡ blocks_for bytes (block_size * 2 ^ scale 3 0 bytes) * block_size * 2 ^ scale 3 0 bytes
  unfolding approx_size fields
  approx_size-set_approx_size =
      let b = ap (λ f. f.big) fields-set_approx_size in
      let s = ap (λ f. f.size) fields-set_approx_size in
      let n = blocks_for bytes (block_size * 2 ^ scale 3 0 bytes) in
      let back : n - 1 + 1 ≡ n =
        omega (arith, blocks_for_range bytes (block_size * 2 ^ scale 3 0 bytes)) in
      rw (b, s, back) refl

  -- The size an entry reports covers the size it was given, up to the largest code of 256 KiB, and
  -- exceeds it by at most a 32nd of it and a block of 512 bytes; it is never above 256 KiB. The last block's rounding must not
  -- overflow a uint64_t.
  pub set_approx_size_covers :
      bytes + 4095 < 2 ^ 64
      → let a = approx_size (set_approx_size bytes e) in
        (min bytes 262144 ≤ a) × (a ≤ 262144) × (a * 32 ≤ bytes * 33 + 16384)
  unfolding blocks_for
  set_approx_size_covers h = rw approx_size-set_approx_size (elim (scale_cases bytes) [
    | inl c ↦ rw c.0 (ground arith)
    | inr (inl c) ↦ rw c.0 (ground arith)
    | inr (inr (inl c)) ↦ rw c.0 (ground arith)
    | inr (inr (inr c)) ↦ rw c.0 (ground arith)
  ])
