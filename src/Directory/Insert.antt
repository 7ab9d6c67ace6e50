-- ===== src/Directory/Insert.antt =====
-- src/core/directory.cpp: `Directory::insert`, with and without an admission object.
pub mod Entries
pub mod Invariant
pub mod Plain
pub mod Publish
use cyclone_cache.Common.{
  ℕ, zero, suc, ◌+◌, ◌-◌, ◌*◌, ◌/◌, ◌%◌, ◌^◌, ◌<◌, Bool, true, false, not, ◌&&◌, ◌||◌, Option, none,
  some, List, [], ◌∷◌, ◌++◌, map, length, get_or, set, take, drop, replicate, ltb, eqb, ◌==◌,
  if◌then◌else◌, min,
}
use cyclone_cache.Key.{CacheKey, bucket_hash, key_tag}
use cyclone_cache.Directory.{
  Directory, match_any_tag, no_verified_entry, bucket_at, bucket_index, write_between, add_count,
  sub_count,
}
use cyclone_cache.Directory.Entry.{
  DirEntry, offset, set_offset, tag, set_tag, phase, set_phase, set_head, set_approx_size,
  set_fill_serial, is_empty, cleared,
}
use cyclone_cache.Directory.Choose.{
  Admission, InsertChoice, choose_insert_slot, publish_view_is_current, keep_first, seen_in,
}

-- What an insert writes: an entry of the same key is moved in place, any other slot is stamped.
unfoldable pub move_entry : ℕ → ℕ → ℕ → Bool → DirEntry → DirEntry
move_entry off size serial ph e =
    set_phase ph (set_fill_serial serial (set_approx_size size (set_offset off e)))

unfoldable pub stamp_entry : ℕ → ℕ → ℕ → ℕ → Bool → DirEntry → DirEntry
stamp_entry off size serial t ph e =
    set_head true
      (set_phase ph (set_tag t (set_fill_serial serial (set_approx_size size (set_offset off e)))))

-- The loop that follows the write: other slots of the tag that carry the new offset or a caller's
-- offset are cleared. The second component counts them.
unfoldable pub clear_others : ℕ → ℕ → List ℕ → ℕ → ℕ → List DirEntry → List DirEntry × ℕ
unfolding seen_in
clear_others t off clear_offsets slot i [] = ([], 0)
clear_others t off clear_offsets slot i (e ∷ es) =
    let (rest, n) = clear_others t off clear_offsets slot (i + 1) es in
    if i == slot || is_empty e || not (tag e == t)
    then (e ∷ rest, n)
    else if offset e == off || seen_in (offset e) clear_offsets
    then (cleared ∷ rest, suc n)
    else (e ∷ rest, n)

-- The result of `insert` and its out-flags.
pub record Inserted : Type 0 where
  pub done : Bool
  pub stale : Bool
  pub collision_evicted : Bool
  pub bucket_full_evicted : Bool

abbrev pub refused : Inserted
refused = record {
  done = false;
  stale = false;
  collision_evicted = false;
  bucket_full_evicted = false;
}

-- The arguments of `insert` that describe the document.
pub record Fresh : Type 0 where
  pub offset : ℕ
  pub size : ℕ
  pub fill_serial : ℕ
  pub verified_offset : ℕ
  pub clear_offsets : List ℕ

unfoldable pub write_choice : Directory → ℕ → ℕ → Fresh → InsertChoice → ℕ → Directory × Inserted
unfolding clear_others move_entry stamp_entry write_between add_count sub_count
write_choice d n t f choice slot =
    let bucket = bucket_at n d.entries in
    let old = get_or bucket slot cleared in
    let new =
      if choice.verified
      then move_entry f.offset f.size f.fill_serial d.current_phase old
      else stamp_entry f.offset f.size f.fill_serial t d.current_phase cleared in
    let (bucket', gone) = clear_others t f.offset f.clear_offsets slot 0 (set bucket slot new) in
    let d' = write_between n bucket' d in
    let d'' = if choice.replaces then d' else add_count 1 d' in
    (
      if gone == 0 then d'' else sub_count gone d'',
      record refused {
        done = true;
        collision_evicted = choice.collision_evicted;
        bucket_full_evicted = choice.bucket_full_evicted;
      },
    )

abbrev pub stale_view : Admission → ℕ → Fresh → Option (List ℕ) → List DirEntry → Bool
stale_view adm t f none bucket = false
stale_view adm t f (some seen) bucket = not (
    publish_view_is_current adm t f.verified_offset f.offset seen match_any_tag no_verified_entry
      bucket)

-- `insert` with an admission object, after its `refresh`.
unfoldable pub insert_admitted :
    Directory → CacheKey → Fresh → Admission → Option (List ℕ) → Directory × Inserted
unfolding write_choice
insert_admitted d key f adm view =
    let n = bucket_index d key in
    let t = key_tag key in
    let bucket = bucket_at n d.entries in
    let choice = choose_insert_slot adm t f.verified_offset match_any_tag f.offset bucket in
    if stale_view adm t f view bucket
    then (d, record refused { stale = true })
    else elim choice.slot [
      | none ↦ (
        d,
        record refused {
          collision_evicted = choice.collision_evicted;
          bucket_full_evicted = choice.bucket_full_evicted;
        },
      )
      | some slot ↦ write_choice d n t f choice slot
    ]

-- The locals of the loop of `insert` without an admission object.
pub record PlainScan : Type 0 where
  pub first_empty : Option ℕ
  pub first_stale : Option ℕ
  pub first_collider : Option ℕ
  pub nearest_to_clobber : Option ℕ
  pub nearest_offset : ℕ

abbrev pub fresh_plain_scan : PlainScan
fresh_plain_scan = record {
  first_empty = none;
  first_stale = none;
  first_collider = none;
  nearest_to_clobber = none;
  nearest_offset = 0;
}

-- The slot with the lowest offset among those that are not empty.
unfoldable pub keep_nearest : ℕ → DirEntry → PlainScan → PlainScan
keep_nearest i e s = elim s.nearest_to_clobber [
  | none ↦ record s { nearest_to_clobber = some i; nearest_offset = offset e }
  | some j ↦
      if ltb (offset e) s.nearest_offset
      then record s { nearest_to_clobber = some i; nearest_offset = offset e }
      else s
]

-- How the loop ends: at `target`, or with its locals.
pub data PlainEnd : Type 0 where
  target : ℕ → PlainEnd
  scanned : PlainScan → PlainEnd

unfoldable pub plain_from : ℕ → Bool → ℕ → ℕ → List DirEntry → PlainScan → PlainEnd
unfolding keep_nearest
plain_from t ph verified i [] s = scanned s
plain_from t ph verified i (e ∷ es) s =
    let s' = keep_nearest i e s in
    let on_empty =
      plain_from t ph verified (i + 1) es (record s { first_empty = keep_first s.first_empty i }) in
    let on_collider =
      plain_from t ph verified (i + 1) es
        (record s' { first_collider = keep_first s'.first_collider i }) in
    let on_stale =
      plain_from t ph verified (i + 1) es
        (record s' { first_stale = keep_first s'.first_stale i }) in
    let on_other = plain_from t ph verified (i + 1) es s' in
    if is_empty e
    then on_empty
    else if tag e == t && eqb (phase e) ph
    then (if verified == match_any_tag || offset e == verified then target i else on_collider)
    else if not (eqb (phase e) ph)
    then on_stale
    else on_other

-- A write of one slot of the bucket.
unfoldable pub write_slot : Directory → ℕ → ℕ → DirEntry → Directory
unfolding write_between
write_slot d n slot e = write_between n (set (bucket_at n d.entries) slot e) d

-- The branches that follow the loop.
unfoldable pub plain_write : Directory → ℕ → ℕ → Fresh → PlainEnd → Directory × Inserted
unfolding move_entry stamp_entry write_slot add_count
plain_write d n t f (target slot) =
    let old = get_or (bucket_at n d.entries) slot cleared in
    (
      write_slot d n slot (move_entry f.offset f.size f.fill_serial d.current_phase old),
      record refused { done = true },
    )
plain_write d n t f (scanned s) =
    let bucket = bucket_at n d.entries in
    let stamp = stamp_entry f.offset f.size f.fill_serial t d.current_phase in
    let put = λ (slot : ℕ). write_slot d n slot (stamp (get_or bucket slot cleared)) in
    elim s.first_empty [
      | some slot ↦ (add_count 1 (put slot), record refused { done = true })
      | none ↦ elim s.first_stale [
        | some slot ↦ (put slot, record refused { done = true })
        | none ↦ elim s.first_collider [
          | some slot ↦ (put slot, record refused { done = true; collision_evicted = true })
          | none ↦ elim s.nearest_to_clobber [
            | some slot ↦ (
              write_slot d n slot (stamp cleared),
              record refused { done = true; bucket_full_evicted = true },
            )
            | none ↦ (d, refused)
          ]
        ]
      ]
    ]

unfoldable pub insert_plain : Directory → CacheKey → Fresh → Directory × Inserted
unfolding plain_from plain_write
insert_plain d key f =
    let n = bucket_index d key in
    plain_write d n (key_tag key) f (
      plain_from (key_tag key) d.current_phase f.verified_offset 0 (bucket_at n d.entries)
        fresh_plain_scan)

-- `insert`: a null admission object takes the second path, which ignores the view and
-- `clear_offsets`.
unfoldable pub insert :
    Directory → CacheKey → Fresh → Option Admission → Option (List ℕ) → Directory × Inserted
unfolding insert_admitted insert_plain
insert d key f none view = insert_plain d key f
insert d key f (some adm) view = insert_admitted d key f adm view
