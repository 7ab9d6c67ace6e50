-- ===== src/Directory/Insert/Plain.antt =====
-- `insert` without an admission object: what its loop finds, and the invariant.
use native.Mathlib.Numerals.{add-one}
use cyclone_cache.Common.{
  ℕ, ◌+◌, ◌<◌, ◌≡◌, refl, inl, inr, Bool, true, false, not, ◌&&◌, ◌||◌, Option, none, some, List,
  [], ◌∷◌, length, drop, get_or, get_or_of_drop, drop-suc, lt_of_drop, if-both, ◌==◌, eqb, ltb,
  Bool-cases, Option-cases,
}
use cyclone_cache.Key.{CacheKey, key_tag}
use cyclone_cache.Directory.Entry.{DirEntry, is_empty, offset, tag, phase, cleared}
use cyclone_cache.Directory.Entry.Words.{IsPacked}
use cyclone_cache.Directory.Entry.Fields.{cleared-IsPacked}
use cyclone_cache.Directory.Choose.{Admission, keep_first}
use cyclone_cache.Directory.{Directory, match_any_tag}
use cyclone_cache.Directory.Invariant.{IsWellFormed}
use cyclone_cache.Directory.Insert.{
  Fresh, PlainScan, PlainEnd, target, scanned, fresh_plain_scan, keep_nearest, plain_from,
  plain_write, insert_plain, insert, write_slot, stamp_entry,
}
use cyclone_cache.Directory.Insert.Invariant.{
  IsFresh, n, bucket, old_packed, moved_lem, stamped_lem, write_slot-IsWellFormed,
  add_slot-IsWellFormed, insert_admitted-IsWellFormed,
}

module _ (b : List DirEntry) where
  -- The slot, if there is one, lies in the bucket and is empty or not, as told.
  abbrev IsSlot : Bool → Option ℕ → Type 0
  IsSlot empty none = Unit {0}
  IsSlot empty (some i) = (i < length b) × (is_empty (get_or b i cleared) ≡ empty)

  record IsScan (s : PlainScan) : Type 0 where
    first_empty : IsSlot true s.first_empty
    first_stale : IsSlot false s.first_stale
    first_collider : IsSlot false s.first_collider
    nearest : IsSlot false s.nearest_to_clobber

  IsEnd : PlainEnd → Type 0
  IsEnd (target i) = IsSlot false (some i)
  IsEnd (scanned s) = IsScan s

  module _ (i : ℕ) (empty : Bool) (here : IsSlot empty (some i)) where
    keep_first-IsSlot : (o : Option ℕ) → IsSlot empty o → IsSlot empty (keep_first o i)
    keep_first-IsSlot none h = here
    keep_first-IsSlot (some j) h = h

  -- A scan that has found a new nearest slot is still sound.
  with_nearest :
      (s : PlainScan) (i o : ℕ)
      → IsSlot false (some i)
      → IsScan s
      → IsScan (record s { nearest_to_clobber = some i; nearest_offset = o })
  with_nearest s i o here h = record {
    first_empty = h.first_empty;
    first_stale = h.first_stale;
    first_collider = h.first_collider;
    nearest = here;
  }

  keep_nearest-IsScan :
      (i : ℕ) (e : DirEntry) (s : PlainScan)
      → IsSlot false (some i)
      → IsScan s
      → IsScan (keep_nearest i e s)
  unfolding keep_nearest
  keep_nearest-IsScan i e s here h = elim (Option-cases s.nearest_to_clobber) [
    | inl first ↦ rw (first, keep_nearest) (with_nearest s i (offset e) here h)
    | inr (j, old) ↦
        rw (old, keep_nearest)
          (if-both IsScan (ltb (offset e) s.nearest_offset) _ s (with_nearest s i (offset e) here h)
            h)
  ]

  plain_from-IsEnd :
      (t : ℕ) (ph : Bool) (verified i : ℕ) (rest : List DirEntry) (s : PlainScan)
      → drop i b ≡ rest
      → IsScan s
      → IsEnd (plain_from t ph verified i rest s)
  unfolding plain_from IsEnd
  plain_from-IsEnd t ph verified i [] s at h = h
  plain_from-IsEnd t ph verified i (e ∷ rest) s at h =
      let here = get_or_of_drop b i cleared e rest at in
      let inside = lt_of_drop b i e rest at in
      let there : drop (i + 1) b ≡ rest = rw add-one (drop-suc b i e rest at) in
      elim (Bool-cases (is_empty e)) [
        | inl empty ↦
            let slot : IsSlot true (some i) = (inside, rw here empty) in
            rw empty (
              plain_from-IsEnd t ph verified (i + 1) rest _ there (record {
                first_empty = keep_first-IsSlot i true slot s.first_empty h.first_empty;
                first_stale = h.first_stale;
                first_collider = h.first_collider;
                nearest = h.nearest;
              }))
        | inr full ↦
            let slot : IsSlot false (some i) = (inside, rw here full) in
            let h' = keep_nearest-IsScan i e s slot h in
            let s' = keep_nearest i e s in
            rw full (
              if-both IsEnd (tag e == t && eqb (phase e) ph) _ _
                (if-both IsEnd (verified == match_any_tag || offset e == verified) _ _ slot (
                  plain_from-IsEnd t ph verified (i + 1) rest _ there (record {
                    first_empty = h'.first_empty;
                    first_stale = h'.first_stale;
                    first_collider =
                        keep_first-IsSlot i false slot s'.first_collider h'.first_collider;
                    nearest = h'.nearest;
                  })))
                (if-both IsEnd (not (eqb (phase e) ph)) _ _
                  (plain_from-IsEnd t ph verified (i + 1) rest _ there (record {
                    first_empty = h'.first_empty;
                    first_stale = keep_first-IsSlot i false slot s'.first_stale h'.first_stale;
                    first_collider = h'.first_collider;
                    nearest = h'.nearest;
                  }))
                  (plain_from-IsEnd t ph verified (i + 1) rest _ there h')))
      ]

module _ (d : Directory) (key : CacheKey) (w : IsWellFormed d) (f : Fresh) (h : IsFresh f) where
  -- A slot that held an entry is stamped anew, over that entry or over a cleared one.
  restamp :
      (slot : ℕ) (e : DirEntry)
      → IsPacked e
      → IsSlot (bucket d key w) false (some slot)
      → IsWellFormed (
          write_slot d
            (n d key w)
            slot
            (stamp_entry f.offset f.size f.fill_serial (key_tag key) d.current_phase e))
  restamp slot e p (inside, full) =
      let (ok, live) = stamped_lem d key w f h slot inside e p in
      write_slot-IsWellFormed d key w f h slot inside _ ok live full

  scanned-IsWellFormed :
      (a b c e : Option ℕ) (o : ℕ)
      → IsSlot (bucket d key w) true a
      → IsSlot (bucket d key w) false b
      → IsSlot (bucket d key w) false c
      → IsSlot (bucket d key w) false e
      → IsWellFormed
          (plain_write d (n d key w) (key_tag key) f (
            scanned (record {
              first_empty = a;
              first_stale = b;
              first_collider = c;
              nearest_to_clobber = e;
              nearest_offset = o;
            }))).0
  unfolding plain_write
  scanned-IsWellFormed (some slot) b c e o (inside, empty) hb hc he =
      let (ok, live) = stamped_lem d key w f h slot inside _ (old_packed d key w f h slot inside) in
      add_slot-IsWellFormed d key w f h slot inside _ ok live empty
  scanned-IsWellFormed none (some slot) c e o ha hb hc he =
      restamp slot _ (old_packed d key w f h slot hb.0) hb
  scanned-IsWellFormed none none (some slot) e o ha hb hc he =
      restamp slot _ (old_packed d key w f h slot hc.0) hc
  scanned-IsWellFormed none none none (some slot) o ha hb hc he =
      restamp slot cleared cleared-IsPacked he
  scanned-IsWellFormed none none none none o ha hb hc he = w

  plain_write-IsWellFormed :
      (r : PlainEnd)
      → IsEnd (bucket d key w) r
      → IsWellFormed (plain_write d (n d key w) (key_tag key) f r).0
  unfolding plain_write IsEnd
  plain_write-IsWellFormed (target slot) (inside, full) =
      let (p, q) = moved_lem d key w f h slot inside in
      write_slot-IsWellFormed d key w f h slot inside _ p q full
  plain_write-IsWellFormed (scanned s) r =
      scanned-IsWellFormed _ _ _ _ s.nearest_offset r.first_empty r.first_stale r.first_collider
        r.nearest

  insert_plain-IsWellFormed : IsWellFormed (insert_plain d key f).0
  unfolding insert_plain
  insert_plain-IsWellFormed = plain_write-IsWellFormed _ (
      plain_from-IsEnd (bucket d key w) (key_tag key) d.current_phase f.verified_offset 0
        (bucket d key w) fresh_plain_scan refl
        (record { first_empty = tt; first_stale = tt; first_collider = tt; nearest = tt }))

  -- `insert` keeps the directory well formed on every path: with or without an admission object,
  -- refused, moving an entry, filling a slot or displacing another, and clearing duplicates.
  pub insert-IsWellFormed :
      (adm : Option Admission) (view : Option (List ℕ)) → IsWellFormed (insert d key f adm view).0
  unfolding insert
  insert-IsWellFormed none view = insert_plain-IsWellFormed
  insert-IsWellFormed (some adm) view = insert_admitted-IsWellFormed d key w f h adm view
