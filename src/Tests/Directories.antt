-- ===== src/Tests/Directories.antt =====
-- A directory of two buckets, with and without an admission object.
use cyclone_cache.Common.{
  ℕ, ◌+◌, ◌*◌, ◌≤◌, ◌≡◌, ◌⊎◌, refl, true, false, none, some, List, [], ◌∷◌, arith, min, replicate,
  map, All, get_elem?, ltb, if◌then◌else◌, length,
}
use cyclone_cache.Key.{CacheKey, key_tag, bucket_hash}
use cyclone_cache.Common.Bytes.{le_bytes}
use cyclone_cache.Common.Splices.{splice}
use cyclone_cache.Directory.Entry.{
  DirEntry, offset, set_offset, big, size, tag, phase, head, cleared, approx_size, set_approx_size,
  set_tag, set_phase, set_head, set_fill_serial, set_size, set_big, scale, blocks_for, is_empty,
}
use cyclone_cache.Directory.Entry.Words.{IsPacked}
use cyclone_cache.Directory.Entry.Fields.{
  fields, cleared-IsPacked, setters_lem, set_offset-IsPacked,
}
use cyclone_cache.Directory.Entry.Size.{set_approx_size_covers}
use cyclone_cache.Directory.Choose.{AdmitClass, Admission, choose_insert_slot}
use cyclone_cache.Directory.Choose.Cheapest.{cost, cheapest, choice_of, choose_insert_slot-cheapest}
use cyclone_cache.Directory.{
  Directory, create, deserialize, remove_at, probe_all, probe_each_all_phases, bucket_at,
  bucket_index, match_any_tag,
}
use cyclone_cache.Directory.Stored.{deserialize_lem}
use cyclone_cache.Directory.Invariant.{IsWellFormed, create-IsWellFormed, remove_at-IsWellFormed}
use cyclone_cache.Directory.Insert.{Fresh, refused, insert, insert_admitted, stale_view}
use cyclone_cache.Directory.Insert.Invariant.{IsFresh}
use cyclone_cache.Directory.Insert.Plain.{insert-IsWellFormed}
use cyclone_cache.Directory.Insert.Publish.{IsPublished, insert_admitted_outcome}
use cyclone_cache.Directory.Remove.{without_offset, probe-remove_at}

abbrev key : CacheKey
key = record { hash = 1 ∷ 0 ∷ 0 ∷ 0 ∷ 1 ∷ 0 ∷ 0 ∷ 0 ∷ 0x34 ∷ 0x12 ∷ replicate 22 0 }

abbrev document : Fresh
document = record {
  offset = 4096;
  size = 10000;
  fill_serial = 7;
  verified_offset = 0xffff_ffff_ffff_ffff;
  clear_offsets = 512 ∷ [];
}

abbrev document-IsFresh : IsFresh document
document-IsFresh = omega arith

abbrev empty : Directory
empty = create 2

abbrev empty-IsWellFormed : IsWellFormed empty
empty-IsWellFormed = create-IsWellFormed 2 (omega arith) (omega arith)

-- An admission that serves every offset.
abbrev serve_all : Admission
serve_all o p = AdmitClass.current

abbrev filled : Directory
filled = (insert empty key document none none).0

abbrev filled-IsWellFormed : IsWellFormed filled
filled-IsWellFormed =
    insert-IsWellFormed empty key empty-IsWellFormed document document-IsFresh none none

-- Every bit set.
abbrev full_entry : DirEntry
full_entry = record { w0 = 0xffff; w1 = 0xffff; w2 = 0xffff; w3 = 0xffff; w4 = 0xffff }

abbrev full_entry-IsPacked : IsPacked full_entry
full_entry-IsPacked = omega arith

-- What a test computes through.
program : Unit {0}
unfolding create insert probe_all remove_at bucket_at bucket_hash key_tag le_bytes splice offset
    set_offset tag set_tag phase set_phase head set_head set_fill_serial approx_size set_approx_size
    size set_size big set_big scale blocks_for is_empty
program = tt

-- The entry is found, with its offset, tag and serial, and the size in blocks of 512 bytes.
found :
    (map offset (probe_all filled key) ≡ 4096 ∷ [])
    × (map tag (probe_all filled key) ≡ 0x234 ∷ [])
    × (map approx_size (probe_all filled key) ≡ 10240 ∷ [])
    × (filled.count ≡ 1)
unfolding program
found = (refl, refl, refl, refl)

setters_lem_example :
    fields (set_offset 0x12_3456_789a full_entry)
    ≡ record (fields full_entry) { offset = 0x12_3456_789a }
setters_lem_example =
    (setters_lem full_entry 0x12_3456_789a 7 65 0x1fff 9 true full_entry-IsPacked (omega arith)).0

set_approx_size_covers_example :
    let a = approx_size (set_approx_size 70000 cleared) in
    (min 70000 262144 ≤ a) × (a ≤ 262144) × (a * 32 ≤ 70000 * 33 + 16384)
set_approx_size_covers_example = set_approx_size_covers cleared cleared-IsPacked 70000 (omega arith)

abbrev two_entries : List DirEntry
two_entries = cleared ∷ set_offset 512 cleared ∷ []

two_entries-IsPacked : All IsPacked two_entries
two_entries-IsPacked = (cleared-IsPacked, (set_offset-IsPacked cleared cleared-IsPacked 512, tt))

choose_insert_slot-cheapest_example :
    choose_insert_slot serve_all 5 match_any_tag match_any_tag 1024 two_entries
    ≡ choice_of (cheapest (map (cost serve_all 5 match_any_tag match_any_tag 1024) two_entries))
choose_insert_slot-cheapest_example =
    choose_insert_slot-cheapest serve_all 5 match_any_tag match_any_tag 1024 two_entries
      two_entries-IsPacked

insert-IsWellFormed_example : IsWellFormed (insert filled key document none none).0
insert-IsWellFormed_example =
    insert-IsWellFormed filled key filled-IsWellFormed document document-IsFresh none none

insert_admitted_outcome_example :
    ((stale_view serve_all
          (key_tag key)
          document
          (some [])
          (bucket_at (bucket_index filled key) filled.entries)
        ≡ true)
      × (insert_admitted filled key document serve_all (some [])
          ≡ (filled, record refused { stale = true })))
    ⊎ ((stale_view serve_all
            (key_tag key)
            document
            (some [])
            (bucket_at (bucket_index filled key) filled.entries)
          ≡ false)
        × ((insert_admitted filled key document serve_all (some [])).1.done ≡ true)
        × (slot : ℕ) × IsPublished filled
            (insert_admitted filled key document serve_all (some [])).0
            key
            document
            slot)
insert_admitted_outcome_example =
    insert_admitted_outcome filled key filled-IsWellFormed document document-IsFresh serve_all
      (some [])

remove_at-IsWellFormed_example : IsWellFormed (remove_at filled key 4096).0
remove_at-IsWellFormed_example = remove_at-IsWellFormed filled key filled-IsWellFormed 4096

deserialize_lem_example :
    IsWellFormed (deserialize two_entries filled)
    × ((i : ℕ)
        → get_elem? (deserialize two_entries filled).entries i ≡ (
            if ltb i (min (length two_entries) (length filled.entries))
            then get_elem? two_entries i
            else get_elem? filled.entries i))
deserialize_lem_example =
    deserialize_lem two_entries filled two_entries-IsPacked filled-IsWellFormed

probe-remove_at_example :
    (probe_all (remove_at filled key 4096).0 key ≡ without_offset 4096 (probe_all filled key))
    × (probe_each_all_phases (remove_at filled key 4096).0 key
        ≡ without_offset 4096 (probe_each_all_phases filled key))
probe-remove_at_example = probe-remove_at filled key filled-IsWellFormed 4096
