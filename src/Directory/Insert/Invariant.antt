-- ===== src/Directory/Insert/Invariant.antt =====
-- `insert` and the invariant of a directory, on both of its paths.
use cyclone_cache.Common.{
  ℕ, ◌+◌, ◌%◌, ◌^◌, ◌≤◌, ◌<◌, ◌≡◌, ◌≢◌, inl, inr, refl, ap, Bool, true, false, not, Option, List,
  length, set, get_or, All, All-set, All-get_or, arith, if◌then◌else◌, ◌==◌, Bool-cases,
  Option-cases, length-set,
}
use cyclone_cache.Key.{CacheKey, key_tag}
use cyclone_cache.Key.Hex.{key_tag-lt}
use cyclone_cache.Directory.Entry.{DirEntry, is_empty, cleared}
use cyclone_cache.Directory.Entry.Words.{IsPacked}
use cyclone_cache.Directory.Entry.Fields.{fields, cleared-IsPacked}
use cyclone_cache.Directory.Choose.{Admission, InsertChoice, choose_insert_slot}
use cyclone_cache.Directory.Choose.Slot.{choose_insert_slot_least}
use cyclone_cache.Directory.Bucket.{live-write_bucket, live-le-length, length-write_bucket}
use cyclone_cache.Directory.{
  Directory, live, bucket_at, bucket_index, write_bucket, write_between, add_count, sub_count,
  match_any_tag,
}
use cyclone_cache.Directory.Invariant.{
  IsWellFormed, bucket_index-lt, bucket_full, bucket_packed, write_between-IsWellFormed,
}
use cyclone_cache.Directory.Insert.{
  Fresh, move_entry, stamp_entry, clear_others, write_choice, stale_view, insert_admitted,
  write_slot,
}
use cyclone_cache.Directory.Insert.Entries.{
  move_entry-IsPacked, fields-move_entry, stamp_entry-IsPacked, fields-stamp_entry,
  is_empty_of_offset, clear_others_lem, live-set,
}

-- The arguments that a caller may give: the offset is not a multiple of 2 ^ 40 (0 marks an empty
-- entry), and the serial is a uint16_t.
pub record IsFresh (f : Fresh) : Type 0 where
  pub somewhere : f.offset % 2 ^ 40 ≢ 0
  pub short : f.fill_serial < 2 ^ 16

module _ (d : Directory) (key : CacheKey) (w : IsWellFormed d) where
  abbrev pub n : ℕ
  n = bucket_index d key

  abbrev pub bucket : List DirEntry
  bucket = bucket_at (bucket_index d key) d.entries

  -- One slot takes an entry, others of the bucket may be cleared, and the count follows.
  module _ (slot : ℕ) (inside : slot < length bucket) (new : DirEntry) (ok : IsPacked new)
      (full : is_empty new ≡ false) where
    abbrev occupied : ℕ
    occupied = if is_empty (get_or bucket slot cleared) then 0 else 1

    live_slot : live (set bucket slot new) + occupied ≡ live bucket + 1
    live_slot = rw full at (live-set bucket slot new inside)

    write_slot_after :
        (b : List DirEntry) (gone : ℕ)
        → length b ≡ length (set bucket slot new)
        → live (set bucket slot new) ≡ live b + gone
        → All IsPacked b
        → (c : ℕ) → c + gone + occupied ≡ d.count + 1
        → IsWellFormed (record (write_between n b d) { count = c })
    write_slot_after b gone l e p c h =
        write_between-IsWellFormed d w n (bucket_index-lt d key w) b
          (omega (arith, l, length-set bucket slot new, bucket_full d key w)) p c
          (omega (arith, live_slot, e))

    -- The count before the others are cleared is the number of entries then.
    count_fits : d.count + 1 < 2 ^ 64 + occupied
    count_fits = omega (
      arith,
      w.counted,
      w.addressable,
      live_slot,
      live-write_bucket n (set bucket slot new) d.entries,
      live-le-length (write_bucket n (set bucket slot new) d.entries),
      length-write_bucket n d.num_buckets d.entries w.size (bucket_index-lt d key w)
          (set bucket slot new) (omega (arith, length-set bucket slot new, bucket_full d key w)),
    )

    module _ (b : List DirEntry) (gone : ℕ) (l : length b ≡ length (set bucket slot new))
        (e : live (set bucket slot new) ≡ live b + gone) (p : All IsPacked b) where
      gone_fits : gone + occupied ≤ d.count + 1
      gone_fits = omega (arith, w.counted, live_slot, e, live-write_bucket n b d.entries)

      pub counted_replacing :
          occupied ≡ 1
          → IsWellFormed
              (if gone == 0 then write_between n b d else sub_count gone (write_between n b d))
      unfolding sub_count write_between
      counted_replacing o = elim (Bool-cases (gone == 0)) [
        | inl z ↦ rw z (write_slot_after b gone l e p d.count (ground arith))
        | inr nz ↦ rw nz (write_slot_after b gone l e p _ (omega (arith, gone_fits, count_fits)))
      ]

      pub counted_adding :
          occupied ≡ 0
          → IsWellFormed (
              if gone == 0
              then add_count 1 (write_between n b d)
              else sub_count gone (add_count 1 (write_between n b d)))
      unfolding sub_count add_count write_between
      counted_adding o = elim (Bool-cases (gone == 0)) [
        | inl z ↦ rw z (write_slot_after b gone l e p _ (ground (arith, count_fits)))
        | inr nz ↦ rw nz (write_slot_after b gone l e p _ (omega (arith, gone_fits, count_fits)))
      ]

module _ (d : Directory) (key : CacheKey) (w : IsWellFormed d) (f : Fresh) (h : IsFresh f)
    (slot : ℕ) (inside : slot < length (bucket d key w)) where
  abbrev pub old : DirEntry
  old = get_or (bucket d key w) slot cleared

  pub old_packed : IsPacked old
  old_packed =
      All-get_or IsPacked (bucket d key w) slot cleared cleared-IsPacked (bucket_packed d key w)

  abbrev pub moved : DirEntry
  moved = move_entry f.offset f.size f.fill_serial d.current_phase old

  pub moved_lem : IsPacked moved × (is_empty moved ≡ false)
  unfolding fields
  moved_lem =
      let e =
        fields-move_entry f.offset f.size f.fill_serial h.short d.current_phase old old_packed in
      (
        move_entry-IsPacked f.offset f.size f.fill_serial h.short d.current_phase old old_packed,
        is_empty_of_offset moved (rw (ap (λ x. x.offset) e) h.somewhere),
      )

  pub stamped_lem :
      (e : DirEntry)
      → IsPacked e
      → let s = stamp_entry f.offset f.size f.fill_serial (key_tag key) d.current_phase e in
        IsPacked s × (is_empty s ≡ false)
  unfolding fields
  stamped_lem e p =
      let q =
        fields-stamp_entry f.offset f.size f.fill_serial h.short d.current_phase e p (key_tag key)
          (key_tag-lt key) in
      (
        stamp_entry-IsPacked f.offset f.size f.fill_serial h.short d.current_phase e p (key_tag key)
            (key_tag-lt key),
        is_empty_of_offset _ (rw (ap (λ x. x.offset) q) h.somewhere),
      )

  -- The write of `new`, the clearing of the others and the count, with either flag.
  cleared_after :
      (new : DirEntry)
      → IsPacked new
      → is_empty new ≡ false
      → (replaces : Bool) → replaces ≡ not (is_empty old)
      → let r =
          clear_others
            (key_tag key)
            f.offset
            f.clear_offsets
            slot
            0
            (set (bucket d key w) slot new) in
        let d' = write_between (n d key w) r.0 d in
        let d'' = if replaces then d' else add_count 1 d' in
        IsWellFormed (if r.1 == 0 then d'' else sub_count r.1 d'')
  cleared_after new ok full b r =
      let (l, e, p) =
        clear_others_lem (key_tag key) f.offset f.clear_offsets slot 0
          (set (bucket d key w) slot new)
          (All-set IsPacked (bucket d key w) slot new ok (bucket_packed d key w)) in
      elim (Bool-cases b) [
        | inl yes_replaces ↦
            rw yes_replaces
              (counted_replacing d key w slot inside new ok full _ _ l e p (ground arith))
        | inr no_replaces ↦
            rw no_replaces (counted_adding d key w slot inside new ok full _ _ l e p (ground arith))
      ]

  write_choice-IsWellFormed :
      (c : InsertChoice)
      → c.replaces ≡ not (is_empty old)
      → IsWellFormed (write_choice d (n d key w) (key_tag key) f c slot).0
  unfolding write_choice
  write_choice-IsWellFormed c r =
      let (mp, mf) = moved_lem in
      let (sp, sf) = stamped_lem cleared cleared-IsPacked in
      elim (Bool-cases c.verified) [
        | inl v ↦ rw v (cleared_after moved mp mf c.replaces r)
        | inr v ↦ rw v (cleared_after _ sp sf c.replaces r)
      ]

  pub write_slot-IsWellFormed :
      (new : DirEntry)
      → IsPacked new
      → is_empty new ≡ false
      → is_empty old ≡ false
      → IsWellFormed (write_slot d (n d key w) slot new)
  unfolding write_slot
  write_slot-IsWellFormed new ok full o =
      counted_replacing d key w slot inside new ok full (set (bucket d key w) slot new) 0 refl
        (omega arith) (All-set IsPacked (bucket d key w) slot new ok (bucket_packed d key w))
        (ground arith)

  pub add_slot-IsWellFormed :
      (new : DirEntry)
      → IsPacked new
      → is_empty new ≡ false
      → is_empty old ≡ true
      → IsWellFormed (add_count 1 (write_slot d (n d key w) slot new))
  unfolding write_slot
  add_slot-IsWellFormed new ok full o =
      counted_adding d key w slot inside new ok full (set (bucket d key w) slot new) 0 refl
        (omega arith) (All-set IsPacked (bucket d key w) slot new ok (bucket_packed d key w))
        (ground arith)

module _ (d : Directory) (key : CacheKey) (w : IsWellFormed d) (f : Fresh) (h : IsFresh f) where
  pub insert_admitted-IsWellFormed :
      (adm : Admission) (view : Option (List ℕ)) → IsWellFormed (insert_admitted d key f adm view).0
  unfolding insert_admitted
  insert_admitted-IsWellFormed adm view =
      elim (Bool-cases (stale_view adm (key_tag key) f view (bucket d key w))) [
        | inl stale ↦ rw stale w
        | inr current ↦ rw current (elim (Option-cases choice.slot) [
          | inl nowhere ↦ rw (nowhere, insert_admitted) w
          | inr (slot, found) ↦
              let (inside, replaces, _, _) =
                choose_insert_slot_least adm (key_tag key) f.verified_offset match_any_tag f.offset
                  (bucket d key w) (bucket_packed d key w) slot found in
              rw (found, insert_admitted)
                (write_choice-IsWellFormed d key w f h slot inside choice replaces)
        ])
      ]
    where
      choice : InsertChoice
      choice =
          choose_insert_slot adm (key_tag key) f.verified_offset match_any_tag f.offset
            (bucket d key w)
