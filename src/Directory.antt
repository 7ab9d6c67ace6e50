-- ===== src/Directory.antt =====
-- src/core/directory.hpp and src/core/directory.cpp: `Directory`, the in-memory directory of a
-- stripe. Its writers hold the stripe's lock, so an operation is a function from the directory to
-- the new one and the call's results; what a reader sees during a write is in Seqlock. A bucket is
-- the run of four entries at `bucket_idx * kEntriesPerBucket` of the flat vector `_entries`.
pub mod Entry
pub mod Choose
pub mod Bucket
pub mod Invariant
pub mod Stored
pub mod Insert
pub mod Remove
use cyclone_cache.Common.{
  ℕ, zero, suc, ◌+◌, ◌-◌, ◌*◌, ◌/◌, ◌%◌, ◌^◌, ◌<◌, Bool, true, false, not, ◌&&◌, ◌||◌, Option, none,
  some, List, [], ◌∷◌, ◌++◌, map, length, get_or, set, take, drop, replicate, ltb, eqb, ◌==◌,
  if◌then◌else◌, min,
}
use cyclone_cache.Common.Splices.{splice}
use cyclone_cache.Key.{CacheKey, bucket_hash, key_tag}
use Entry.{
  DirEntry, offset, set_offset, tag, set_tag, phase, set_phase, set_head, set_approx_size,
  set_fill_serial, is_empty, cleared,
}
use Choose.{
  Admission, InsertChoice, choose_insert_slot, publish_view_is_current, keep_first, seen_in,
}

abbrev pub entries_per_bucket : ℕ
entries_per_bucket = 4

-- `kMatchAnyTag` and `kNoVerifiedEntry`.
abbrev pub match_any_tag : ℕ
match_any_tag = 2 ^ 64 - 1

abbrev pub no_verified_entry : ℕ
no_verified_entry = 2 ^ 64 - 2

pub record Directory : Type 0 where
  pub num_buckets : ℕ
  pub entries : List DirEntry
  pub versions : List ℕ
  pub count : ℕ
  pub current_phase : Bool

unfoldable pub live : List DirEntry → ℕ
live [] = 0
live (e ∷ es) = if is_empty e then live es else suc (live es)

unfoldable pub create : ℕ → Directory
create n = record {
  num_buckets = n;
  entries = replicate (n * entries_per_bucket) cleared;
  versions = replicate n 0;
  count = 0;
  current_phase = false;
}

unfoldable pub clear : Directory → Directory
clear d = record d { entries = map (λ e. cleared) d.entries; count = 0 }

-- The pointer `&_entries[bucket_idx * kEntriesPerBucket]`: read, and write back.
unfoldable pub bucket_at : ℕ → List DirEntry → List DirEntry
bucket_at n es = take entries_per_bucket (drop (n * entries_per_bucket) es)

unfoldable pub write_bucket : ℕ → List DirEntry → List DirEntry → List DirEntry
write_bucket n b es = splice (n * entries_per_bucket) entries_per_bucket b es

abbrev pub bucket_index : Directory → CacheKey → ℕ
bucket_index d key = bucket_hash key % d.num_buckets

-- `begin_bucket_write` and `end_bucket_write` each add one to the bucket's 32-bit version.
unfoldable pub bump_version : ℕ → List ℕ → List ℕ
bump_version n vs = set vs n ((get_or vs n 0 + 1) % 2 ^ 32)

-- A write of one bucket between its two version bumps.
unfoldable pub write_between : ℕ → List DirEntry → Directory → Directory
unfolding write_bucket bump_version
write_between n b d = record d {
  entries = write_bucket n b d.entries;
  versions = bump_version n (bump_version n d.versions);
}

-- `fetch_add` and `fetch_sub` on the size_t `_count`.
unfoldable pub add_count : ℕ → Directory → Directory
add_count k d = record d { count = (d.count + k) % 2 ^ 64 }

unfoldable pub sub_count : ℕ → Directory → Directory
sub_count k d = record d { count = (d.count + 2 ^ 64 - k) % 2 ^ 64 }

-- `remove`: the first entry of the tag is cleared, whatever its phase.
unfoldable pub remove_from : ℕ → List DirEntry → Option (List DirEntry)
remove_from t [] = none
remove_from t (e ∷ es) =
    let rest = remove_from t es in
    if not (is_empty e) && tag e == t
    then some (cleared ∷ es)
    else elim rest [ none ↦ none | some es' ↦ some (e ∷ es') ]

unfoldable pub remove : Directory → CacheKey → Directory × Bool
unfolding remove_from write_between sub_count
remove d key =
    let n = bucket_index d key in
    elim (remove_from (key_tag key) (bucket_at n d.entries)) [
      | none ↦ (d, false)
      | some b ↦ (sub_count 1 (write_between n b d), true)
    ]

-- `remove_at`: every entry of the tag at the offset is cleared.
unfoldable pub remove_at_from : ℕ → ℕ → List DirEntry → List DirEntry
remove_at_from t off [] = []
remove_at_from t off (e ∷ es) =
    (if not (is_empty e) && tag e == t && offset e == off then cleared else e)
    ∷ remove_at_from t off es

unfoldable pub remove_at_count : ℕ → ℕ → List DirEntry → ℕ
remove_at_count t off [] = 0
remove_at_count t off (e ∷ es) =
    let rest = remove_at_count t off es in
    if not (is_empty e) && tag e == t && offset e == off then suc rest else rest

unfoldable pub remove_at : Directory → CacheKey → ℕ → Directory × Bool
unfolding remove_at_from remove_at_count write_between sub_count
remove_at d key off =
    let n = bucket_index d key in
    let bucket = bucket_at n d.entries in
    let removed = remove_at_count (key_tag key) off bucket in
    if removed == 0
    then (d, false)
    else (sub_count removed (write_between n (remove_at_from (key_tag key) off bucket) d), true)

unfoldable pub toggle_phase : Directory → Directory
toggle_phase d = record d { current_phase = not d.current_phase }

-- One consistent scan of `probe`: the first entry of the tag in the current phase.
unfoldable pub probe_scan : ℕ → Bool → List DirEntry → Option DirEntry
probe_scan t ph [] = none
probe_scan t ph (e ∷ es) =
    let rest = probe_scan t ph es in
    if is_empty e || not (eqb (phase e) ph) then rest else if tag e == t then some e else rest

unfoldable pub probe : Directory → CacheKey → Option DirEntry
unfolding probe_scan
probe d key = probe_scan (key_tag key) d.current_phase (bucket_at (bucket_index d key) d.entries)

-- The entries that one consistent scan of `probe_each_impl` hands to a callback that never stops;
-- `filter_phase` is the template argument.
unfoldable pub probe_each_scan : Bool → ℕ → Bool → List DirEntry → List DirEntry
probe_each_scan filter_phase t ph [] = []
probe_each_scan filter_phase t ph (e ∷ es) =
    let rest = probe_each_scan filter_phase t ph es in
    if is_empty e || filter_phase && not (eqb (phase e) ph)
    then rest
    else if tag e == t
    then e ∷ rest
    else rest

unfoldable pub probe_all : Directory → CacheKey → List DirEntry
unfolding probe_each_scan
probe_all d key =
    probe_each_scan true (key_tag key) d.current_phase (bucket_at (bucket_index d key) d.entries)

unfoldable pub probe_each_all_phases : Directory → CacheKey → List DirEntry
unfolding probe_each_scan
probe_each_all_phases d key =
    probe_each_scan false (key_tag key) d.current_phase (bucket_at (bucket_index d key) d.entries)

-- `deserialize`, given the entries that stand in the buffer: as many as fit are copied over the
-- first entries, and the count is taken anew.
unfoldable pub deserialize : List DirEntry → Directory → Directory
deserialize stored d =
    let n = min (length stored) (length d.entries) in
    let es = take n stored ++ drop n d.entries in record d { entries = es; count = live es }
