-- ===== src/Directory/Bucket.antt =====
-- Reading and writing one bucket of the flat vector of entries.
use cyclone_cache.Common.{
  ℕ, ◌+◌, ◌*◌, ◌≤◌, ◌<◌, ◌≡◌, ◌≢◌, ◌⊎◌, inl, inr, ap, List, [], ◌∷◌, ◌++◌, length, take, drop, All,
  All-take, All-drop, All-append, arith, length-take_of_le, length-drop,
}
use cyclone_cache.Common.Splices.{
  splice, split_run, length-splice, run-splice, run-splice_before, run-splice-behind,
}
use cyclone_cache.Directory.Entry.{DirEntry}
use cyclone_cache.Directory.{live, bucket_at, write_bucket, entries_per_bucket}

pub live-append : (xs ys : List DirEntry) → live (xs ++ ys) ≡ live xs + live ys
unfolding live
live-append [] ys = omega arith
live-append (x ∷ xs) ys = ground (arith, live-append xs ys)

pub live-le-length : (xs : List DirEntry) → live xs ≤ length xs
unfolding live
live-le-length [] = omega arith
live-le-length (x ∷ xs) = ground (arith, live-le-length xs)

-- A write of a bucket changes the number of live entries by what it changes in the bucket.
pub live-write_bucket :
    (n : ℕ) (b es : List DirEntry)
    → live (write_bucket n b es) + live (bucket_at n es) ≡ live es + live b
unfolding write_bucket bucket_at splice
live-write_bucket n b es =
    let m = n * entries_per_bucket in
    let k : ℕ = entries_per_bucket in
    omega (
      arith,
      ap live (split_run m k es),
      live-append (take m es) (take k (drop m es) ++ drop (m + k) es),
      live-append (take k (drop m es)) (drop (m + k) es),
      live-append (take m es ++ b) (drop (m + k) es),
      live-append (take m es) b,
    )

pub All-bucket_at {κ} :
    (P : DirEntry → Type κ) (n : ℕ) (es : List DirEntry) → All P es → All P (bucket_at n es)
unfolding bucket_at
All-bucket_at P n es h =
    let m = n * entries_per_bucket in All-take P entries_per_bucket (drop m es) (All-drop P m es h)

pub All-write_bucket {κ} :
    (P : DirEntry → Type κ) (n : ℕ) (b es : List DirEntry)
    → All P b
    → All P es
    → All P (write_bucket n b es)
unfolding write_bucket splice
All-write_bucket P n b es hb h =
    let m = n * entries_per_bucket in
    All-append P (take m es ++ b) (drop (m + entries_per_bucket) es)
      (All-append P (take m es) b (All-take P m es h) hb) (All-drop P (m + entries_per_bucket) es h)

module _ (n buckets : ℕ) (es : List DirEntry) where
  module _ (size : length es ≡ buckets * entries_per_bucket) (inside : n < buckets) where
    room : n * entries_per_bucket + entries_per_bucket ≤ length es
    room = omega arith

    pub length-bucket_at : length (bucket_at n es) ≡ entries_per_bucket
    unfolding bucket_at
    length-bucket_at =
        length-take_of_le _ _ (omega (arith, room, length-drop (n * entries_per_bucket) es))

    module _ (b : List DirEntry) (full : length b ≡ entries_per_bucket) where
      pub length-write_bucket : length (write_bucket n b es) ≡ length es
      unfolding write_bucket
      length-write_bucket = length-splice _ _ b es full room

      -- The bucket reads back what was written.
      pub bucket_at-write_bucket : bucket_at n (write_bucket n b es) ≡ b
      unfolding write_bucket bucket_at
      bucket_at-write_bucket = run-splice _ _ b es full room

      -- No other bucket changes.
      pub bucket_at-write_bucket_ne :
          (m : ℕ) → m ≢ n → bucket_at m (write_bucket n b es) ≡ bucket_at m es
      unfolding write_bucket bucket_at
      bucket_at-write_bucket_ne m ne = elim (apart m ne) [
        | inl below ↦
            run-splice_before _ _ b es full room (m * entries_per_bucket) entries_per_bucket
              (omega arith)
        | inr above ↦
            run-splice-behind _ _ b es full room (m * entries_per_bucket) entries_per_bucket
              (omega arith)
      ]
        where
          apart : (m : ℕ) → m ≢ n → (m < n) ⊎ (n < m)
          apart m ne = ground arith
