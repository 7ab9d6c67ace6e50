-- ===== src/Directory/Choose.antt =====
-- src/core/directory.hpp and src/core/directory.cpp: the choice of a slot in a bucket
-- (`choose_insert_slot`) and the check of a writer's probe (`publish_view_is_current`). A slot of
-- -1 is `none`; the two out-flags, which are only ever set, are fields of the result. The
-- admission object, an interface, is its `classify` at the time of the call.
pub mod Cheapest
pub mod Slot
use mathlib.Core.Option.{Option, none, some}
use cyclone_cache.Common.{
  ℕ, ◌+◌, ◌<◌, Bool, true, false, not, ◌&&◌, ◌||◌, List, [], ◌∷◌, ◌==◌, ltb, if◌then◌else◌, get_or,
}
use cyclone_cache.Directory.Entry.{DirEntry, offset, tag, phase, is_empty, cleared}

pub data AdmitClass : Type 0 where
  reject current retained : AdmitClass

abbrev pub is_reject : AdmitClass → Bool
is_reject AdmitClass.reject = true
is_reject AdmitClass.current = false
is_reject AdmitClass.retained = false

abbrev pub Admission : Type 0
Admission = ℕ → Bool → AdmitClass

pub record InsertChoice : Type 0 where
  pub slot : Option ℕ
  pub replaces : Bool
  pub verified : Bool
  pub collision_evicted : Bool
  pub bucket_full_evicted : Bool

-- The locals of the loop.
pub record Scan : Type 0 where
  pub same_spot : Option ℕ
  pub first_empty : Option ℕ
  pub first_inadmissible : Option ℕ
  pub first_collider : Option ℕ
  pub oldest_retained : Option ℕ
  pub oldest_current : Option ℕ

abbrev pub fresh_scan : Scan
fresh_scan = record {
  same_spot = none;
  first_empty = none;
  first_inadmissible = none;
  first_collider = none;
  oldest_retained = none;
  oldest_current = none;
}

-- `if (x < 0) x = i;`
abbrev pub keep_first : Option ℕ → ℕ → Option ℕ
keep_first none i = some i
keep_first (some j) i = some j

-- `{i, true, false}`.
abbrev pub replacing : ℕ → InsertChoice
replacing i = record {
  slot = some i;
  replaces = true;
  verified = false;
  collision_evicted = false;
  bucket_full_evicted = false;
}

-- What follows the loop of `choose_insert_slot`.
unfoldable pub after_scan : Scan → InsertChoice
after_scan s = elim s.same_spot [
  | some i ↦ replacing i
  | none ↦ elim s.first_empty [
    | some i ↦ record (replacing i) { replaces = false }
    | none ↦ elim s.first_inadmissible [
      | some i ↦ replacing i
      | none ↦ elim s.first_collider [
        | some i ↦ record (replacing i) { collision_evicted = true }
        | none ↦ elim s.oldest_retained [
          | some i ↦ record (replacing i) { bucket_full_evicted = true }
          | none ↦ elim s.oldest_current [
            | some i ↦ record (replacing i) { bucket_full_evicted = true }
            | none ↦ record (replacing 0) { slot = none; replaces = false }
          ]
        ]
      ]
    ]
  ]
]

-- `if (oldest < 0 || e.offset() < bucket[oldest].offset()) oldest = i;`
unfoldable pub keep_oldest : List DirEntry → Option ℕ → ℕ → DirEntry → Option ℕ
keep_oldest bucket none i e = some i
keep_oldest bucket (some j) i e =
    if ltb (offset e) (offset (get_or bucket j cleared)) then some i else some j

module _ (classify : Admission) (key_tag verified_offset match_any_tag new_offset : ℕ) where
  -- Is `e`, an entry that is not empty, the entry that the writer verified?
  unfoldable pub is_verified : DirEntry → Bool
  is_verified e =
      tag e == key_tag
      && (if verified_offset == match_any_tag
          then not (is_reject (classify (offset e) (phase e)))
          else offset e == verified_offset)

  -- Does `e` carry the offset that the new document was written at?
  unfoldable pub is_same_spot : DirEntry → Bool
  is_same_spot e = not (new_offset == 0) && tag e == key_tag && offset e == new_offset

  module _ (bucket : List DirEntry) where
    -- One round of the loop at an entry that is neither empty nor the verified one.
    unfoldable pub scan_class : ℕ → DirEntry → AdmitClass → Scan → Scan
    scan_class i e AdmitClass.reject s = record s {
      first_inadmissible = keep_first s.first_inadmissible i;
    }
    scan_class i e AdmitClass.retained s =
        if tag e == key_tag
        then record s { first_collider = keep_first s.first_collider i }
        else record s { oldest_retained = keep_oldest bucket s.oldest_retained i e }
    scan_class i e AdmitClass.current s =
        if tag e == key_tag
        then record s { first_collider = keep_first s.first_collider i }
        else record s { oldest_current = keep_oldest bucket s.oldest_current i e }

    -- The loop from slot `i` on.
    unfoldable pub choose_from : ℕ → List DirEntry → Scan → InsertChoice
    unfolding after_scan scan_class
    choose_from i [] s = after_scan s
    choose_from i (e ∷ rest) s =
        let skip_empty =
          choose_from (i + 1) rest (record s { first_empty = keep_first s.first_empty i }) in
        let skip_same_spot =
          choose_from (i + 1) rest (record s { same_spot = keep_first s.same_spot i }) in
        let skip = choose_from (i + 1) rest (scan_class i e (classify (offset e) (phase e)) s) in
        if is_empty e
        then skip_empty
        else if is_verified e
        then record (replacing i) { verified = true }
        else if is_same_spot e
        then skip_same_spot
        else skip

  unfoldable pub choose_insert_slot : List DirEntry → InsertChoice
  unfolding choose_from is_verified is_same_spot
  choose_insert_slot bucket = choose_from bucket 0 bucket fresh_scan

-- `publish_view_is_current`: the inner loop over the offsets that the writer's probe saw, then the
-- loop over the bucket.
unfoldable pub seen_in : ℕ → List ℕ → Bool
seen_in o [] = false
seen_in o (x ∷ xs) = x == o || seen_in o xs

module _ (classify : Admission) (key_tag verified_offset new_offset : ℕ)
    (seen_offsets : List ℕ) where
  unfoldable pub view_from : Bool → List DirEntry → Bool
  unfolding seen_in
  view_from verified_found [] = verified_found
  view_from verified_found (e ∷ rest) =
      let skip = view_from verified_found rest in
      let found = view_from true rest in
      if is_empty e || not (tag e == key_tag)
      then skip
      else if offset e == verified_offset
      then found
      else if not (new_offset == 0) && offset e == new_offset
      then skip
      else if is_reject (classify (offset e) (phase e))
      then skip
      else if seen_in (offset e) seen_offsets
      then skip
      else false

  unfoldable pub publish_view_is_current : ℕ → ℕ → List DirEntry → Bool
  unfolding view_from
  publish_view_is_current match_any_tag no_verified_entry bucket =
      view_from (verified_offset == match_any_tag || verified_offset == no_verified_entry) bucket
