-- ===== src/Directory/Choose/Cheapest.antt =====
-- An independent description of `choose_insert_slot`: every slot has a cost, and the first of the
-- cheapest slots is taken.
use native.Mathlib.Numerals.{add-one}
use cyclone_cache.Common.{
  ℕ, ◌+◌, ◌*◌, ◌^◌, ◌<◌, ◌≡◌, refl, sym, inl, inr, false, ◌&&◌, ◌||◌, Option, none, some, List, [],
  ◌∷◌, map, drop, get_or, get_or_of_drop, drop-suc, All, All-get_or, ltb, leb, ◌==◌, if◌then◌else◌,
  arith, Bool-cases, Option-cases,
}
use cyclone_cache.Directory.Entry.{DirEntry, offset, tag, phase, is_empty, cleared}
use cyclone_cache.Directory.Entry.Words.{IsPacked}
use cyclone_cache.Directory.Entry.Fields.{offset-lt, cleared-IsPacked}
use cyclone_cache.Directory.Choose.{
  AdmitClass, Admission, InsertChoice, Scan, fresh_scan, keep_first, replacing, after_scan,
  is_verified, is_same_spot, keep_oldest, scan_class, choose_from, choose_insert_slot,
}

-- One step of cost; an offset is below it.
abbrev pub rank : ℕ
rank = 2 ^ 40

module _ (classify : Admission) (key_tag verified_offset match_any_tag new_offset : ℕ) where
  abbrev pub class_cost : DirEntry → AdmitClass → ℕ
  class_cost e AdmitClass.reject = 3 * rank
  class_cost e AdmitClass.retained = if tag e == key_tag then 4 * rank else 5 * rank + offset e
  class_cost e AdmitClass.current = if tag e == key_tag then 4 * rank else 6 * rank + offset e

  -- The verified entry is free; then come a dead entry at the new offset, an empty slot, an entry
  -- that no read would serve, another key's entry under the same tag, and the other live entries,
  -- those of the previous lap first, each by its offset.
  unfoldable pub cost : DirEntry → ℕ
  cost e =
      if is_empty e
      then 2 * rank
      else if is_verified classify key_tag verified_offset match_any_tag new_offset e
      then 0
      else if is_same_spot classify key_tag verified_offset match_any_tag new_offset e
      then rank
      else class_cost e (classify (offset e) (phase e))

-- The slot and the cost that are kept when slot `i` of cost `c` is seen.
abbrev pub better : Option (ℕ × ℕ) → ℕ → ℕ → Option (ℕ × ℕ)
better none i c = some (i, c)
better (some (j, d)) i c = if ltb c d then some (i, c) else some (j, d)

unfoldable pub cheapest_from : ℕ → List ℕ → Option (ℕ × ℕ) → Option (ℕ × ℕ)
cheapest_from i [] best = best
cheapest_from i (c ∷ cs) best = cheapest_from (i + 1) cs (better best i c)

-- The first slot of the least cost, with its cost.
abbrev pub cheapest : List ℕ → Option (ℕ × ℕ)
cheapest cs = cheapest_from 0 cs none

unfoldable pub choice_of : Option (ℕ × ℕ) → InsertChoice
choice_of none = record (replacing 0) { slot = none; replaces = false }
choice_of (some (i, c)) = record {
  slot = some i;
  replaces = ltb c (2 * rank) || leb (3 * rank) c;
  verified = ltb c rank;
  collision_evicted = leb (4 * rank) c && ltb c (5 * rank);
  bucket_full_evicted = leb (5 * rank) c;
}

module _ (bucket : List DirEntry) (small : (j : ℕ) → offset (get_or bucket j cleared) < rank) where
  -- What the locals of the loop say of the slots seen so far.
  select : Scan → Option (ℕ × ℕ)
  select s = elim s.same_spot [
    | some i ↦ some (i, rank)
    | none ↦ elim s.first_empty [
      | some i ↦ some (i, 2 * rank)
      | none ↦ elim s.first_inadmissible [
        | some i ↦ some (i, 3 * rank)
        | none ↦ elim s.first_collider [
          | some i ↦ some (i, 4 * rank)
          | none ↦ elim s.oldest_retained [
            | some i ↦ some (i, 5 * rank + offset (get_or bucket i cleared))
            | none ↦ elim s.oldest_current [
              | some i ↦ some (i, 6 * rank + offset (get_or bucket i cleared))
              | none ↦ none
            ]
          ]
        ]
      ]
    ]
  ]

  abbrev pub scan_of : (a b c d e f : Option ℕ) → Scan
  scan_of a b c d e f = record {
    same_spot = a;
    first_empty = b;
    first_inadmissible = c;
    first_collider = d;
    oldest_retained = e;
    oldest_current = f;
  }

  choice_of-select :
      (a b c d e f : Option ℕ)
      → choice_of (select (scan_of a b c d e f)) ≡ after_scan (scan_of a b c d e f)
  unfolding select choice_of after_scan
  choice_of-select (some i) b c d e f = refl
  choice_of-select none (some i) c d e f = refl
  choice_of-select none none (some i) d e f = refl
  choice_of-select none none none (some i) e f = refl
  choice_of-select none none none none (some i) f = ground (arith, small i)
  choice_of-select none none none none none (some i) = ground (arith, small i)
  choice_of-select none none none none none none = refl

  select-same_spot :
      (i : ℕ) (s : Scan)
      → select (record s { same_spot = keep_first s.same_spot i }) ≡ better (select s) i rank
  unfolding select
  select-same_spot i s = ground arith

  select-empty :
      (i : ℕ) (s : Scan)
      → select (record s { first_empty = keep_first s.first_empty i })
        ≡ better (select s) i (2 * rank)
  unfolding select
  select-empty i s = ground arith

  select-inadmissible :
      (i : ℕ) (s : Scan)
      → select (record s { first_inadmissible = keep_first s.first_inadmissible i })
        ≡ better (select s) i (3 * rank)
  unfolding select
  select-inadmissible i s = ground arith

  select-collider :
      (i : ℕ) (s : Scan)
      → select (record s { first_collider = keep_first s.first_collider i })
        ≡ better (select s) i (4 * rank)
  unfolding select
  select-collider i s = ground arith

  module _ (i : ℕ) (e : DirEntry) (here : get_or bucket i cleared ≡ e) where
    fits : offset e < rank
    fits = rw (← here) (small i)

    select-retained :
        (s : Scan)
        → select (record s { oldest_retained = keep_oldest bucket s.oldest_retained i e })
          ≡ better (select s) i (5 * rank + offset e)
    unfolding select keep_oldest
    select-retained s = ground (arith, fits)

    select-current :
        (s : Scan)
        → select (record s { oldest_current = keep_oldest bucket s.oldest_current i e })
          ≡ better (select s) i (6 * rank + offset e)
    unfolding select keep_oldest
    select-current s = elim (Option-cases s.oldest_retained) [
      | inl none_yet ↦ ground (arith, fits)
      | inr (j, old) ↦ ground (arith, fits, small j)
    ]

-- A free slot stays the cheapest.
cheapest_from_free : (i j : ℕ) (cs : List ℕ) → cheapest_from i cs (some (j, 0)) ≡ some (j, 0)
unfolding cheapest_from
cheapest_from_free i j [] = refl
cheapest_from_free i j (c ∷ cs) = ground (arith, cheapest_from_free (i + 1) j cs)

module _ (classify : Admission) (key_tag verified_offset match_any_tag new_offset : ℕ) where
  module _ (bucket : List DirEntry)
      (small : (j : ℕ) → offset (get_or bucket j cleared) < rank) where
    select-scan_class :
        (i : ℕ) (e : DirEntry) (c : AdmitClass) (s : Scan)
        → get_or bucket i cleared ≡ e
        → select bucket small
            (scan_class classify key_tag verified_offset match_any_tag new_offset bucket i e c s)
          ≡ better
              (select bucket small s)
              i
              (class_cost classify key_tag verified_offset match_any_tag new_offset e c)
    unfolding scan_class
    select-scan_class i e AdmitClass.reject s here = select-inadmissible bucket small i s
    select-scan_class i e AdmitClass.retained s here = elim (Bool-cases (tag e == key_tag)) [
      | inl same ↦ rw same (select-collider bucket small i s)
      | inr other ↦ rw other (select-retained bucket small i e here s)
    ]
    select-scan_class i e AdmitClass.current s here = elim (Bool-cases (tag e == key_tag)) [
      | inl same ↦ rw same (select-collider bucket small i s)
      | inr other ↦ rw other (select-current bucket small i e here s)
    ]

    better_free : (i : ℕ) (s : Scan) → better (select bucket small s) i 0 ≡ some (i, 0)
    unfolding select
    better_free i s = ground arith

    choose_from-cheapest_from :
        (i : ℕ) (rest : List DirEntry) (s : Scan)
        → drop i bucket ≡ rest
        → choose_from classify key_tag verified_offset match_any_tag new_offset bucket i rest s
          ≡ choice_of (
              cheapest_from i
                (map (cost classify key_tag verified_offset match_any_tag new_offset) rest)
                (select bucket small s))
    unfolding choose_from cheapest_from cost choice_of
    choose_from-cheapest_from i [] s at = sym (choice_of-select bucket small _ _ _ _ _ _)
    choose_from-cheapest_from i (e ∷ rest) s at =
        let here = get_or_of_drop bucket i cleared e rest at in
        let there : drop (i + 1) bucket ≡ rest = rw add-one (drop-suc bucket i e rest at) in
        let class = classify (offset e) (phase e) in
        ground (
          arith,
          select-empty bucket small i s,
          select-same_spot bucket small i s,
          select-scan_class i e class s here,
          better_free i s,
          cheapest_from_free (i + 1) i
              (map (cost classify key_tag verified_offset match_any_tag new_offset) rest),
          choose_from-cheapest_from (i + 1) rest
              (record s { first_empty = keep_first s.first_empty i }) there,
          choose_from-cheapest_from (i + 1) rest (record s { same_spot = keep_first s.same_spot i })
              there,
          choose_from-cheapest_from (i + 1) rest
              (scan_class classify key_tag verified_offset match_any_tag new_offset bucket i e class
                s)
              there,
        )

  packed_small :
      (bucket : List DirEntry)
      → All IsPacked bucket
      → (j : ℕ) → offset (get_or bucket j cleared) < rank
  packed_small bucket h j = offset-lt _ (All-get_or IsPacked bucket j cleared cleared-IsPacked h)

  -- On a bucket of packed entries `choose_insert_slot` takes the first of the cheapest slots, and
  -- its flags are those of that slot's cost; a bucket with no slots gives -1.
  pub choose_insert_slot-cheapest :
      (bucket : List DirEntry)
      → All IsPacked bucket
      → choose_insert_slot classify key_tag verified_offset match_any_tag new_offset bucket
        ≡ choice_of
            (cheapest (map (cost classify key_tag verified_offset match_any_tag new_offset) bucket))
  unfolding choose_insert_slot select
  choose_insert_slot-cheapest bucket h =
      choose_from-cheapest_from bucket (packed_small bucket h) 0 bucket fresh_scan refl
