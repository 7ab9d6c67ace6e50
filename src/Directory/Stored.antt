-- ===== src/Directory/Stored.antt =====
-- src/core/directory.cpp: the directory that `deserialize` leaves.
use cyclone_cache.Common.{
  ℕ, zero, suc, ◌≤◌, ◌≡◌, refl, ◌∙◌, List, [], ◌∷◌, ◌++◌, length, take, drop, All, All-take,
  All-drop, All-append, arith, min, length-append, length-take_of_le, length-drop, get_elem?, ltb,
  if◌then◌else◌,
}
use cyclone_cache.Directory.Entry.{DirEntry}
use cyclone_cache.Directory.Entry.Words.{IsPacked}
use cyclone_cache.Directory.{Directory, deserialize}
use cyclone_cache.Directory.Invariant.{IsWellFormed}

deserialize-IsWellFormed :
    (stored : List DirEntry) (d : Directory)
    → All IsPacked stored
    → IsWellFormed d
    → IsWellFormed (deserialize stored d)
unfolding deserialize
deserialize-IsWellFormed stored d ok w =
    let n = min (length stored) (length d.entries) in
    let l : length (take n stored ++ drop n d.entries) ≡ length d.entries = omega (
      arith,
      length-append (take n stored) (drop n d.entries),
      length-take_of_le n stored (omega arith),
      length-drop n d.entries,
    ) in
    record {
      some_bucket = w.some_bucket;
      size = l ∙ w.size;
      addressable = omega (arith, l, w.addressable);
      one_version_each = w.one_version_each;
      packed =
          All-append IsPacked (take n stored) (drop n d.entries) (All-take IsPacked n stored ok)
            (All-drop IsPacked n d.entries w.packed);
      counted = refl;
      quiet = w.quiet;
    }

joined_at :
    {A : Type 0} (n : ℕ) (xs ys : List A) (i : ℕ)
    → n ≤ length xs
    → n ≤ length ys
    → get_elem? (take n xs ++ drop n ys) i ≡ (if ltb i n then get_elem? xs i else get_elem? ys i)
joined_at zero xs ys i h k = ground arith
joined_at (suc n) [] ys i h k = absurd (omega arith)
joined_at (suc n) (x ∷ xs) [] i h k = absurd (omega arith)
joined_at (suc n) (x ∷ xs) (y ∷ ys) zero h k = ground arith
joined_at (suc n) (x ∷ xs) (y ∷ ys) (suc i) h k =
    ground (arith, joined_at n xs ys i (omega arith) (omega arith))

-- A stored directory of any length, also one of another geometry, is taken over as far as it fits: each slot
-- that the stored entries reach holds the stored entry, the others are as they were, and the directory is
-- well formed, its count included. The stored entries are packed, and the directory was well formed before.
pub deserialize_lem :
    (stored : List DirEntry) (d : Directory)
    → All IsPacked stored
    → IsWellFormed d
    → IsWellFormed (deserialize stored d)
      × ((i : ℕ)
          → get_elem? (deserialize stored d).entries i ≡ (
              if ltb i (min (length stored) (length d.entries))
              then get_elem? stored i
              else get_elem? d.entries i))
unfolding deserialize
deserialize_lem stored d ok w = (
  deserialize-IsWellFormed stored d ok w,
  λ i.
      joined_at (min (length stored) (length d.entries)) stored d.entries i (omega arith)
        (omega arith),
)
