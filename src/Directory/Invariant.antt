-- ===== src/Directory/Invariant.antt =====
-- The invariant of a directory, and the operations other than `insert`.
use cyclone_cache.Common.{
  ℕ, zero, suc, ◌+◌, ◌*◌, ◌%◌, ◌^◌, ◌≤◌, ◌<◌, ◌≡◌, inl, inr, if-both, refl, ap, ◌∙◌, true, not,
  ◌&&◌, some, List, [], ◌∷◌, map, length, replicate, All, All-replicate, arith, length-set,
  length-replicate, ◌==◌, Bool-cases, Option-cases,
}
use cyclone_cache.Key.{CacheKey, key_tag}
use cyclone_cache.Directory.Entry.{DirEntry, is_empty, tag, offset, cleared}
use cyclone_cache.Directory.Entry.Words.{IsPacked}
use cyclone_cache.Directory.Entry.Fields.{cleared-IsPacked}
use cyclone_cache.Directory.Bucket.{
  live-le-length, live-write_bucket, All-bucket_at, All-write_bucket, length-bucket_at,
  length-write_bucket,
}
use cyclone_cache.Directory.{
  Directory, entries_per_bucket, live, create, clear, bucket_at, bucket_index, bump_version,
  write_between, sub_count, remove_from, remove, remove_at_from, remove_at_count, remove_at,
  toggle_phase,
}

abbrev pub IsEven : ℕ → Type 0
IsEven v = v % 2 ≡ 0

-- The sizes agree, every entry is packed, the count is the number of entries that are not empty,
-- and no bucket is in the middle of a write.
pub record IsWellFormed (d : Directory) : Type 0 where
  pub some_bucket : 0 < d.num_buckets
  pub size : length d.entries ≡ d.num_buckets * entries_per_bucket
  pub addressable : length d.entries < 2 ^ 64
  pub one_version_each : length d.versions ≡ d.num_buckets
  pub packed : All IsPacked d.entries
  pub counted : d.count ≡ live d.entries
  pub quiet : All IsEven d.versions

pub bump_twice :
    (n : ℕ) (vs : List ℕ) → All IsEven vs → All IsEven (bump_version n (bump_version n vs))
unfolding bump_version
bump_twice n [] h = tt
bump_twice zero (v ∷ vs) h = (omega arith, h.1)
bump_twice (suc n) (v ∷ vs) h = (h.0, bump_twice n vs h.1)

length-bump_version : (n : ℕ) (vs : List ℕ) → length (bump_version n vs) ≡ length vs
unfolding bump_version
length-bump_version n vs = length-set vs n _

-- A cleared entry is empty.
pub is_empty-cleared : is_empty cleared ≡ true
unfolding is_empty offset
is_empty-cleared = refl

live-replicate : (n : ℕ) → 0 ≡ live (replicate n cleared)
unfolding live
live-replicate zero = refl
live-replicate (suc n) = rw is_empty-cleared (live-replicate n)

pub create-IsWellFormed :
    (n : ℕ) → 0 < n → n * entries_per_bucket < 2 ^ 64 → IsWellFormed (create n)
unfolding create live
create-IsWellFormed n pos fits = record {
  some_bucket = pos;
  size = length-replicate (n * entries_per_bucket) cleared;
  addressable = omega (arith, length-replicate (n * entries_per_bucket) cleared);
  one_version_each = length-replicate n 0;
  packed = All-replicate IsPacked (n * entries_per_bucket) cleared cleared-IsPacked;
  counted = live-replicate (n * entries_per_bucket);
  quiet = All-replicate IsEven n 0 refl;
}

pub bucket_index-lt :
    (d : Directory) (key : CacheKey) → IsWellFormed d → bucket_index d key < d.num_buckets
bucket_index-lt d key w = omega arith

module _ (d : Directory) (w : IsWellFormed d) where
  -- A bucket of packed entries is written, and the count follows.
  module _ (n : ℕ) (inside : n < d.num_buckets) (b : List DirEntry)
      (full : length b ≡ entries_per_bucket) (ok : All IsPacked b) where
    pub write_between-IsWellFormed :
        (c : ℕ)
        → c + live (bucket_at n d.entries) ≡ d.count + live b
        → IsWellFormed (record (write_between n b d) { count = c })
    unfolding write_between
    write_between-IsWellFormed c e =
        let same = length-write_bucket n d.num_buckets d.entries w.size inside b full in
        record {
          some_bucket = w.some_bucket;
          size = omega (arith, same, w.size);
          addressable = omega (arith, same, w.addressable);
          one_version_each = omega (
            arith,
            w.one_version_each,
            length-bump_version n (bump_version n d.versions),
            length-bump_version n d.versions,
          );
          packed = All-write_bucket IsPacked n b d.entries ok w.packed;
          counted = omega (arith, e, w.counted, live-write_bucket n b d.entries);
          quiet = bump_twice n d.versions w.quiet;
        }

    -- `_count` does not wrap.
    count_bound : d.count ≤ length d.entries
    count_bound = omega (arith, w.counted, live-le-length d.entries)

module _ (t : ℕ) where
  -- `remove` clears exactly one entry.
  remove_from_lem :
      (es es' : List DirEntry)
      → All IsPacked es
      → remove_from t es ≡ some es'
      → (length es' ≡ length es) × (live es ≡ suc (live es')) × All IsPacked es'
  unfolding remove_from live
  remove_from_lem [] es' ok h = cc
  remove_from_lem (e ∷ es) es' ok h = elim (Bool-cases (not (is_empty e) && tag e == t)) [
    | inl hit ↦ ground (arith, is_empty-cleared, cleared-IsPacked, ok)
    | inr miss ↦ elim (Option-cases (remove_from t es)) [
      | inl gone ↦ ground arith
      | inr (r, found) ↦ ground (arith, remove_from_lem es r ok.1 found)
    ]
  ]

  pub length-remove_at_from :
      (off : ℕ) (es : List DirEntry) → length (remove_at_from t off es) ≡ length es
  unfolding remove_at_from
  length-remove_at_from off [] = refl
  length-remove_at_from off (e ∷ es) = ap suc (length-remove_at_from off es)

  remove_at_from-packed :
      (off : ℕ) (es : List DirEntry) → All IsPacked es → All IsPacked (remove_at_from t off es)
  unfolding remove_at_from
  remove_at_from-packed off [] h = tt
  remove_at_from-packed off (e ∷ es) h =
      (if-both IsPacked _ cleared e cleared-IsPacked h.0, remove_at_from-packed off es h.1)

  live-remove_at_from :
      (off : ℕ) (es : List DirEntry)
      → live es ≡ live (remove_at_from t off es) + remove_at_count t off es
  unfolding remove_at_from remove_at_count live
  live-remove_at_from off [] = omega arith
  live-remove_at_from off (e ∷ es) = ground (arith, is_empty-cleared, live-remove_at_from off es)

module _ (d : Directory) (key : CacheKey) (w : IsWellFormed d) where
  abbrev bucket_of : List DirEntry
  bucket_of = bucket_at (bucket_index d key) d.entries

  pub bucket_full : length bucket_of ≡ entries_per_bucket
  bucket_full =
      length-bucket_at (bucket_index d key) d.num_buckets d.entries w.size (bucket_index-lt d key w)

  pub bucket_packed : All IsPacked bucket_of
  bucket_packed = All-bucket_at IsPacked (bucket_index d key) d.entries w.packed

  -- The bucket is rewritten to hold `k` live entries fewer, and so is the count.
  shrink :
      (k : ℕ) (b : List DirEntry)
      → length b ≡ length bucket_of
      → All IsPacked b
      → live bucket_of ≡ live b + k
      → IsWellFormed (sub_count k (write_between (bucket_index d key) b d))
  unfolding sub_count write_between
  shrink k b l ok e =
      write_between-IsWellFormed d w (bucket_index d key) (bucket_index-lt d key w) b
        (omega (arith, l, bucket_full)) ok _
        (omega (
          arith,
          e,
          w.counted,
          w.addressable,
          live-le-length d.entries,
          live-write_bucket (bucket_index d key) b d.entries,
        ))

  -- `remove` keeps the directory well formed, whether it finds an entry or not.
  pub remove-IsWellFormed : IsWellFormed (remove d key).0
  unfolding remove
  remove-IsWellFormed = elim (Option-cases (remove_from (key_tag key) bucket_of)) [
    | inl absent ↦ rw (absent, remove) w
    | inr (b, found) ↦
        let (l, e, ok) = remove_from_lem (key_tag key) bucket_of b bucket_packed found in
        rw (found, remove) (shrink 1 b l ok (omega (arith, e)))
  ]

  -- `remove_at` keeps a directory well formed, its count included, however many duplicates it clears.
  pub remove_at-IsWellFormed : (off : ℕ) → IsWellFormed (remove_at d key off).0
  unfolding remove_at
  remove_at-IsWellFormed off =
      elim (Bool-cases (remove_at_count (key_tag key) off bucket_of == 0)) [
        | inl nothing ↦ rw nothing w
        | inr some_gone ↦ rw some_gone (
            shrink _ _ (length-remove_at_from (key_tag key) off bucket_of)
              (remove_at_from-packed (key_tag key) off bucket_of bucket_packed)
              (live-remove_at_from (key_tag key) off bucket_of))
      ]

live-map-cleared : (es : List DirEntry) → 0 ≡ live (map (λ e. cleared) es)
unfolding live
live-map-cleared [] = refl
live-map-cleared (e ∷ es) = rw is_empty-cleared (live-map-cleared es)

packed-map-cleared : (es : List DirEntry) → All IsPacked (map (λ e. cleared) es)
packed-map-cleared [] = tt
packed-map-cleared (e ∷ es) = (cleared-IsPacked, packed-map-cleared es)

length-map-cleared : (es : List DirEntry) → length (map (λ e. cleared) es) ≡ length es
length-map-cleared [] = refl
length-map-cleared (e ∷ es) = ap suc (length-map-cleared es)

pub clear-IsWellFormed : (d : Directory) → IsWellFormed d → IsWellFormed (clear d)
unfolding clear
clear-IsWellFormed d w = record {
  some_bucket = w.some_bucket;
  size = length-map-cleared d.entries ∙ w.size;
  addressable = omega (arith, length-map-cleared d.entries, w.addressable);
  one_version_each = w.one_version_each;
  packed = packed-map-cleared d.entries;
  counted = live-map-cleared d.entries;
  quiet = w.quiet;
}

pub toggle_phase-IsWellFormed : (d : Directory) → IsWellFormed d → IsWellFormed (toggle_phase d)
unfolding toggle_phase
toggle_phase-IsWellFormed d w = assumption
