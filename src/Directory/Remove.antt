-- ===== src/Directory/Remove.antt =====
-- What `remove` and `remove_at` leave to be found.
use cyclone_cache.Common.{
  ℕ, ◌≡◌, refl, sym, ◌∙◌, inl, inr, Bool, true, false, List, [], ◌∷◌, arith, if◌then◌else◌, ◌==◌,
  Bool-cases,
}
use cyclone_cache.Key.{CacheKey, key_tag}
use cyclone_cache.Directory.Entry.{DirEntry, offset}
use cyclone_cache.Directory.Bucket.{bucket_at-write_bucket}
use cyclone_cache.Directory.{
  Directory, bucket_at, bucket_index, write_between, sub_count, remove_at_from, remove_at_count,
  remove_at, probe_each_scan, probe_all, probe_each_all_phases,
}
use cyclone_cache.Directory.Invariant.{
  IsWellFormed, is_empty-cleared, bucket_index-lt, bucket_full, length-remove_at_from,
}

-- The entries at other offsets, in order.
abbrev pub without_offset : ℕ → List DirEntry → List DirEntry
without_offset off [] = []
without_offset off (e ∷ es) =
    if offset e == off then without_offset off es else e ∷ without_offset off es

probe-remove_at_from :
    (filter_phase : Bool) (t : ℕ) (ph : Bool) (off : ℕ) (es : List DirEntry)
    → probe_each_scan filter_phase t ph (remove_at_from t off es)
      ≡ without_offset off (probe_each_scan filter_phase t ph es)
unfolding probe_each_scan remove_at_from
probe-remove_at_from filter_phase t ph off [] = refl
probe-remove_at_from filter_phase t ph off (e ∷ es) =
    ground (arith, is_empty-cleared, probe-remove_at_from filter_phase t ph off es)

remove_at_none :
    (t off : ℕ) (es : List DirEntry) → remove_at_count t off es ≡ 0 → remove_at_from t off es ≡ es
unfolding remove_at_count remove_at_from
remove_at_none t off [] h = refl
remove_at_none t off (e ∷ es) h = ground (arith, remove_at_none t off es)

module _ (d : Directory) (key : CacheKey) (w : IsWellFormed d) (off : ℕ) where
  bucket-remove_at :
      bucket_at (bucket_index d key) (remove_at d key off).0.entries
      ≡ remove_at_from (key_tag key) off (bucket_at (bucket_index d key) d.entries)
  unfolding remove_at write_between sub_count
  bucket-remove_at =
      let b = bucket_at (bucket_index d key) d.entries in
      elim (Bool-cases (remove_at_count (key_tag key) off b == 0)) [
        | inl nothing ↦ rw nothing (sym (remove_at_none (key_tag key) off b (ground arith)))
        | inr gone ↦ rw gone (
            bucket_at-write_bucket (bucket_index d key) d.num_buckets d.entries w.size
              (bucket_index-lt d key w) _
              (length-remove_at_from (key_tag key) off b ∙ bucket_full d key w))
      ]

  phase-remove_at : (remove_at d key off).0.current_phase ≡ d.current_phase
  unfolding remove_at write_between sub_count
  phase-remove_at = ground arith

  buckets-remove_at : (remove_at d key off).0.num_buckets ≡ d.num_buckets
  unfolding remove_at write_between sub_count
  buckets-remove_at = ground arith

  -- After `remove_at` a probe finds what it found before, in the same order, less the entries at
  -- that offset; so does a probe over both phases.
  pub probe-remove_at :
      (probe_all (remove_at d key off).0 key ≡ without_offset off (probe_all d key))
      × (probe_each_all_phases (remove_at d key off).0 key
          ≡ without_offset off (probe_each_all_phases d key))
  unfolding probe_all probe_each_all_phases
  probe-remove_at =
      rw (buckets-remove_at, phase-remove_at, bucket-remove_at)
        (
          probe-remove_at_from true (key_tag key) d.current_phase off _,
          probe-remove_at_from false (key_tag key) d.current_phase off _,
        )
