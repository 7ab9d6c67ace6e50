-- ===== src/Directory/Insert/Publish.antt =====
-- What an insert with an admission object leaves in the directory.
use cyclone_cache.Common.{
  ℕ, zero, suc, ◌+◌, ◌%◌, ◌^◌, ◌<◌, ◌≡◌, refl, sym, ap, ◌∙◌, ◌⊎◌, inl, inr, Bool, true, false, not,
  ◌&&◌, ◌||◌, Option, List, [], ◌∷◌, length, set, get_or, arith, if◌then◌else◌, ◌==◌, Bool-cases,
  length-set, get_or-set_self, subst,
}
use cyclone_cache.Key.{CacheKey, key_tag}
use cyclone_cache.Key.Hex.{key_tag-lt}
use cyclone_cache.Directory.Entry.{DirEntry, is_empty, offset, tag, phase, fill_serial, cleared}
use cyclone_cache.Directory.Entry.Fields.{fields, cleared-IsPacked}
use cyclone_cache.Directory.Choose.{Admission, InsertChoice, choose_insert_slot, seen_in}
use cyclone_cache.Directory.Choose.Slot.{
  choose_insert_slot_least, choose_insert_slot_some, verified_tag,
}
use cyclone_cache.Directory.Bucket.{bucket_at-write_bucket}
use cyclone_cache.Directory.{
  Directory, bucket_at, bucket_index, write_bucket, write_between, add_count, sub_count,
  match_any_tag, entries_per_bucket,
}
use cyclone_cache.Directory.Invariant.{IsWellFormed, bucket_index-lt, bucket_full, bucket_packed}
use cyclone_cache.Directory.Insert.{
  Fresh, refused, move_entry, stamp_entry, clear_others, write_choice, stale_view, insert_admitted,
}
use cyclone_cache.Directory.Insert.Entries.{fields-move_entry, fields-stamp_entry}
use cyclone_cache.Directory.Insert.Invariant.{IsFresh, n, bucket, old_packed}

module _ (t off : ℕ) (clear_offsets : List ℕ) where
  -- Does `e` duplicate the new entry: the tag, with the new offset or one of the caller's?
  abbrev pub is_duplicate : DirEntry → Bool
  is_duplicate e =
      not (is_empty e) && tag e == t && (offset e == off || seen_in (offset e) clear_offsets)

  -- From slot `i` on, and but for `slot`: duplicates are cleared and all else is as it was.
  abbrev pub OthersSettled : ℕ → ℕ → List DirEntry → List DirEntry → Type 0
  OthersSettled slot i [] [] = Unit {0}
  OthersSettled slot i [] (e' ∷ es') = ⊥
  OthersSettled slot i (e ∷ es) [] = ⊥
  OthersSettled slot i (e ∷ es) (e' ∷ es') =
      ((i ≡ slot) ⊎ (e' ≡ (if is_duplicate e then cleared else e)))
      × OthersSettled slot (i + 1) es es'

  clear_others-OthersSettled :
      (slot i : ℕ) (es : List DirEntry)
      → OthersSettled slot i es (clear_others t off clear_offsets slot i es).0
  unfolding clear_others
  clear_others-OthersSettled slot i [] = tt
  clear_others-OthersSettled slot i (e ∷ es) =
      ground (arith, clear_others-OthersSettled slot (i + 1) es)

  OthersSettled-set :
      (slot i j : ℕ) (v : DirEntry) (es es' : List DirEntry)
      → i + j ≡ slot
      → OthersSettled slot i (set es j v) es'
      → OthersSettled slot i es es'
  OthersSettled-set slot i j v [] es' at h = h
  OthersSettled-set slot i zero v (e ∷ es) [] at h = h
  OthersSettled-set slot i (suc j) v (e ∷ es) [] at h = h
  OthersSettled-set slot i zero v (e ∷ es) (e' ∷ es') at h = (inl (omega arith), h.1)
  OthersSettled-set slot i (suc j) v (e ∷ es) (e' ∷ es') at h =
      (h.0, OthersSettled-set slot (i + 1) j v es es' (omega arith) h.1)

  length-clear_others :
      (slot i : ℕ) (es : List DirEntry)
      → length (clear_others t off clear_offsets slot i es).0 ≡ length es
  unfolding clear_others
  length-clear_others slot i [] = refl
  length-clear_others slot i (e ∷ es) = ground (arith, length-clear_others slot (i + 1) es)

  clear_others_keeps :
      (slot i j : ℕ) (es : List DirEntry)
      → i + j ≡ slot
      → get_or (clear_others t off clear_offsets slot i es).0 j cleared ≡ get_or es j cleared
  unfolding clear_others
  clear_others_keeps slot i j [] at = refl
  clear_others_keeps slot i zero (e ∷ es) at = ground arith
  clear_others_keeps slot i (suc j) (e ∷ es) at =
      ground (arith, clear_others_keeps slot (i + 1) j es)

-- The count changes no entry.
counted_entries :
    (d : Directory) (replaces : Bool) (gone : ℕ)
    → (let d' = if replaces then d else add_count 1 d in
        if gone == 0 then d' else sub_count gone d').entries
      ≡ d.entries
unfolding add_count sub_count
counted_entries d replaces gone = ground arith

-- What `insert` promises of the bucket: `slot` holds the document, and the other slots of the
-- bucket are settled.
pub record IsPublished (d d' : Directory) (key : CacheKey) (f : Fresh) (slot : ℕ) : Type 0 where
  pub inside : slot < entries_per_bucket
  pub entry_offset :
      offset (get_or (bucket_at (bucket_index d key) d'.entries) slot cleared) ≡ f.offset % 2 ^ 40
  pub entry_tag :
      tag (get_or (bucket_at (bucket_index d key) d'.entries) slot cleared) ≡ key_tag key
  pub entry_phase :
      phase (get_or (bucket_at (bucket_index d key) d'.entries) slot cleared) ≡ d.current_phase
  pub entry_serial :
      fill_serial (get_or (bucket_at (bucket_index d key) d'.entries) slot cleared) ≡ f.fill_serial
  pub others :
      OthersSettled
        (key_tag key)
        f.offset
        f.clear_offsets
        slot
        0
        (bucket_at (bucket_index d key) d.entries)
        (bucket_at (bucket_index d key) d'.entries)

module _ (d : Directory) (key : CacheKey) (w : IsWellFormed d) (f : Fresh) (h : IsFresh f) where
  abbrev IsNew : DirEntry → Type 0
  IsNew e =
      (offset e ≡ f.offset % 2 ^ 40)
      × (tag e ≡ key_tag key)
      × (phase e ≡ d.current_phase)
      × (fill_serial e ≡ f.fill_serial)

  moved-IsNew :
      (slot : ℕ)
      → slot < length (bucket d key w)
      → tag (get_or (bucket d key w) slot cleared) ≡ key_tag key
      → IsNew (
          move_entry f.offset f.size f.fill_serial d.current_phase
            (get_or (bucket d key w) slot cleared))
  unfolding fields
  moved-IsNew slot inside t =
      let q =
        fields-move_entry f.offset f.size f.fill_serial h.short d.current_phase _
          (old_packed d key w f h slot inside) in
      (ap (λ x. x.offset) q, ap (λ x. x.tag) q ∙ t, ap (λ x. x.phase) q, ap (λ x. x.fill_serial) q)

  stamped-IsNew :
      IsNew (stamp_entry f.offset f.size f.fill_serial (key_tag key) d.current_phase cleared)
  unfolding fields
  stamped-IsNew =
      let q =
        fields-stamp_entry f.offset f.size f.fill_serial h.short d.current_phase cleared
          cleared-IsPacked (key_tag key) (key_tag-lt key) in
      (ap (λ x. x.offset) q, ap (λ x. x.tag) q, ap (λ x. x.phase) q, ap (λ x. x.fill_serial) q)

  module _ (slot : ℕ) (inside : slot < length (bucket d key w)) (new : DirEntry)
      (fresh : IsNew new) where
    abbrev settled : List DirEntry
    settled =
        (clear_others (key_tag key) f.offset f.clear_offsets slot 0
          (set (bucket d key w) slot new)).0

    settled-length : length settled ≡ length (set (bucket d key w) slot new)
    settled-length =
        length-clear_others (key_tag key) f.offset f.clear_offsets slot 0
          (set (bucket d key w) slot new)

    published :
        (d' : Directory)
        → d'.entries ≡ write_bucket (n d key w) settled d.entries
        → IsPublished d d' key f slot
    published d' e =
        let start : 0 + slot ≡ slot = omega arith in
        let written = set (bucket d key w) slot new in
        let full : length settled ≡ entries_per_bucket =
          omega
            (arith, settled-length, length-set (bucket d key w) slot new, bucket_full d key w) in
        let b : bucket_at (bucket_index d key) d'.entries ≡ settled =
          ap (bucket_at (bucket_index d key)) e
          ∙ bucket_at-write_bucket (n d key w) d.num_buckets d.entries w.size
              (bucket_index-lt d key w) settled full in
        let g : get_or settled slot cleared ≡ new =
          clear_others_keeps (key_tag key) f.offset f.clear_offsets slot 0 slot written start
          ∙ get_or-set_self (bucket d key w) slot new cleared inside in
        let at = ap (λ (es : List DirEntry). get_or es slot cleared) b ∙ g in
        record {
          inside = omega (arith, inside, bucket_full d key w);
          entry_offset = ap offset at ∙ fresh.0;
          entry_tag = ap tag at ∙ fresh.1;
          entry_phase = ap phase at ∙ fresh.2;
          entry_serial = ap fill_serial at ∙ fresh.3;
          others =
              subst (OthersSettled (key_tag key) f.offset f.clear_offsets slot 0 (bucket d key w))
                (sym b)
                (OthersSettled-set (key_tag key) f.offset f.clear_offsets slot 0 slot new
                  (bucket d key w) settled start
                  (clear_others-OthersSettled (key_tag key) f.offset f.clear_offsets slot 0
                    written));
        }

  module _ (adm : Admission) (view : Option (List ℕ)) where
    abbrev choice : InsertChoice
    choice =
        choose_insert_slot adm (key_tag key) f.verified_offset match_any_tag f.offset
          (bucket d key w)

    write_choice-IsPublished :
        (c : InsertChoice) (slot : ℕ)
        → slot < length (bucket d key w)
        → ((c.verified ≡ false) ⊎ (tag (get_or (bucket d key w) slot cleared) ≡ key_tag key))
        → IsPublished d (write_choice d (n d key w) (key_tag key) f c slot).0 key f slot
    unfolding write_choice write_between
    write_choice-IsPublished c slot inside t = elim (Bool-cases c.verified) [
      | inl v ↦
          let same : tag (get_or (bucket d key w) slot cleared) ≡ key_tag key = ground arith in
          rw v (
            published slot inside _ (moved-IsNew slot inside same) _
              (counted_entries _ c.replaces _))
      | inr v ↦ rw v (published slot inside _ stamped-IsNew _ (counted_entries _ c.replaces _))
    ]

  -- On a well formed directory an insert with an admission object has two outcomes. Where the writer's view
  -- is stale, as `publish_view_is_current` says, nothing changes and the call reports `stale`; without a view
  -- it never is. Otherwise it succeeds: one slot of the key's bucket holds an entry with the document's offset
  -- (40 bits of it), tag, serial and the current phase; every other entry of the tag with the
  -- document's offset, or with one of the caller's, is cleared; the other entries of the bucket are
  -- as they were. The document's offset is no multiple of 2 ^ 40, and its serial has 16 bits.
  pub insert_admitted_outcome :
      (adm : Admission) (view : Option (List ℕ))
      → ((stale_view adm (key_tag key) f view (bucket d key w) ≡ true)
          × (insert_admitted d key f adm view ≡ (d, record refused { stale = true })))
        ⊎ ((stale_view adm (key_tag key) f view (bucket d key w) ≡ false)
            × ((insert_admitted d key f adm view).1.done ≡ true)
            × (slot : ℕ) × IsPublished d (insert_admitted d key f adm view).0 key f slot)
  unfolding insert_admitted write_choice
  insert_admitted_outcome adm view =
      let t = key_tag key in
      let b = bucket d key w in
      let ok = bucket_packed d key w in
      elim (Bool-cases (stale_view adm t f view b)) [
        | inl stale ↦ inl (stale, rw stale)
        | inr current ↦
            let some_slot : 0 < length b = omega (arith, bucket_full d key w) in
            let (slot, found) =
              choose_insert_slot_some adm t f.verified_offset match_any_tag f.offset b ok
                some_slot in
            let (inside, _, _, _) =
              choose_insert_slot_least adm t f.verified_offset match_any_tag f.offset b ok slot
                found in
            inr (
              current,
              rw (current, found, insert_admitted),
              slot,
              rw (current, found, insert_admitted)
                  (write_choice-IsPublished adm view (choice adm view) slot inside
                    (verified_tag adm t f.verified_offset match_any_tag f.offset b ok slot found)),
            )
      ]
