-- ===== src/Directory/Choose/Slot.antt =====
-- The slot that is chosen, against the costs of the others.
use cyclone_cache.Common.{
  ℕ, zero, suc, ◌+◌, ◌*◌, ◌<◌, ◌≤◌, ◌≡◌, refl, sym, ◌∙◌, ◌⊎◌, inl, inr, true, false, not, Option,
  none, some, List, [], ◌∷◌, map, length, get_or, get_elem?, All, arith, Bool-cases, ltb, leb, ◌||◌,
}
use cyclone_cache.Directory.Entry.{DirEntry, is_empty, tag, cleared}
use cyclone_cache.Directory.Entry.Words.{IsPacked}
use cyclone_cache.Directory.Choose.{Admission, InsertChoice, choose_insert_slot, is_verified}
use cyclone_cache.Directory.Choose.Cheapest.{
  rank, cost, cheapest_from, cheapest, choice_of, choose_insert_slot-cheapest,
}

-- The result is the start value or a slot of the list with its cost.
cheapest_from_origin :
    (k : ℕ) (cs : List ℕ) (best : Option (ℕ × ℕ)) (i c : ℕ)
    → cheapest_from k cs best ≡ some (i, c)
    → (best ≡ some (i, c)) ⊎ ((j : ℕ) × (i ≡ k + j) × (get_elem? cs j ≡ some c))
unfolding cheapest_from
cheapest_from_origin k [] best i c h = inl h
cheapest_from_origin k (d ∷ cs) none i c h = elim (cheapest_from_origin (k + 1) cs _ i c h) [
  | inl e ↦ inr (0, ground arith, ground arith)
  | inr (j, e, g) ↦ inr (suc j, omega arith, g)
]
cheapest_from_origin k (d ∷ cs) (some (j', d')) i c h =
    elim (cheapest_from_origin (k + 1) cs _ i c h) [
      | inl e ↦ elim (Bool-cases (ltb d d')) [
        | inl less ↦ inr (0, ground arith, ground arith)
        | inr more ↦ inl (ground arith)
      ]
      | inr (j, e, g) ↦ inr (suc j, omega arith, g)
    ]

-- It is at most the start value and every cost of the list.
abbrev AtMost : ℕ → Option (ℕ × ℕ) → Type 0
AtMost c none = Unit {0}
AtMost c (some (j, d)) = c ≤ d

cheapest_from_least :
    (k : ℕ) (cs : List ℕ) (best : Option (ℕ × ℕ)) (i c : ℕ)
    → cheapest_from k cs best ≡ some (i, c)
    → AtMost c best × All (λ d. c ≤ d) cs
unfolding cheapest_from
cheapest_from_least k [] none i c h = (tt, tt)
cheapest_from_least k [] (some (j, d)) i c h = (ground arith, tt)
cheapest_from_least k (d ∷ cs) none i c h =
    let (a, b) = cheapest_from_least (k + 1) cs _ i c h in (tt, (a, b))
cheapest_from_least k (d ∷ cs) (some (j, d')) i c h =
    let r = cheapest_from_least (k + 1) cs _ i c h in
    elim (Bool-cases (ltb d d')) [ inl less ↦ ground (arith, r) | inr more ↦ ground (arith, r) ]

get_elem?-map :
    (f : DirEntry → ℕ) (xs : List DirEntry) (j c : ℕ)
    → get_elem? (map f xs) j ≡ some c
    → (j < length xs) × (f (get_or xs j cleared) ≡ c)
get_elem?-map f [] j c h = cc
get_elem?-map f (x ∷ xs) zero c h = (omega arith, ground arith)
get_elem?-map f (x ∷ xs) (suc j) c h = let (l, e) = get_elem?-map f xs j c h in (omega arith, e)

All-map :
    (P : ℕ → Type 0) (f : DirEntry → ℕ) (xs : List DirEntry)
    → All P (map f xs)
    → All (λ x. P (f x)) xs
All-map P f [] h = tt
All-map P f (x ∷ xs) h = (h.0, All-map P f xs h.1)

module _ (classify : Admission) (key_tag verified_offset match_any_tag new_offset : ℕ) where
  abbrev price : DirEntry → ℕ
  price = cost classify key_tag verified_offset match_any_tag new_offset

  cost_empty :
      (e : DirEntry) → (ltb (price e) (2 * rank) || leb (3 * rank) (price e)) ≡ not (is_empty e)
  unfolding cost
  cost_empty e = ground arith

  pub cost_verified :
      (e : DirEntry)
      → ltb (price e) rank ≡ true
      → (is_empty e ≡ false)
        × (is_verified classify key_tag verified_offset match_any_tag new_offset e ≡ true)
  unfolding cost
  cost_verified e h = ground arith

  cheapest_from-some :
      (k : ℕ) (cs : List ℕ) (b : ℕ × ℕ) → (r : ℕ × ℕ) × (cheapest_from k cs (some b) ≡ some r)
  unfolding cheapest_from
  cheapest_from-some k [] b = (b, refl)
  cheapest_from-some k (c ∷ cs) (j, d) = elim (Bool-cases (ltb c d)) [
    | inl less ↦ rw less (cheapest_from-some (k + 1) cs (k, c))
    | inr more ↦ rw more (cheapest_from-some (k + 1) cs (j, d))
  ]

  cheapest-some :
      (bucket : List DirEntry)
      → 0 < length bucket
      → (r : ℕ × ℕ) × (cheapest (map price bucket) ≡ some r)
  unfolding cheapest_from
  cheapest-some [] h = absurd (omega arith)
  cheapest-some (e ∷ es) h = cheapest_from-some 1 (map price es) (0, price e)

  module _ (bucket : List DirEntry) (ok : All IsPacked bucket) where
    abbrev choice : InsertChoice
    choice = choose_insert_slot classify key_tag verified_offset match_any_tag new_offset bucket

    Least : ℕ → InsertChoice → Type 0
    Least i c =
        (i < length bucket)
        × (c.replaces ≡ not (is_empty (get_or bucket i cleared)))
        × (c.verified ≡ ltb (price (get_or bucket i cleared)) rank)
        × All (λ e. price (get_or bucket i cleared) ≤ price e) bucket

    Least-cheapest :
        (best : Option (ℕ × ℕ)) (i : ℕ)
        → cheapest (map price bucket) ≡ best
        → (choice_of best).slot ≡ some i
        → Least i (choice_of best)
    unfolding choice_of Least
    Least-cheapest none i e h = cc
    Least-cheapest (some (j, c)) i e h =
        elim (cheapest_from_origin 0 (map price bucket) none j c e) [
          | inl never ↦ cc
          | inr (j', at, found) ↦
              let (inside, paid) = get_elem?-map price bucket j' c found in
              let least = cheapest_from_least 0 (map price bucket) none j c e in
              let here : j' ≡ i = ground arith in
              let cheap = All-map (λ d. c ≤ d) price bucket least.1 in
              rw (← here, ← cost_empty (get_or bucket j' cleared), paid) (inside, refl, refl, cheap)
        ]

    -- The chosen slot lies in the bucket, the flags describe what it held, and no slot is cheaper:
    -- a live entry is given up only where the bucket has nothing cheaper to give.
    pub choose_insert_slot_least :
        (i : ℕ)
        → choice.slot ≡ some i
        → (i < length bucket)
          × (choice.replaces ≡ not (is_empty (get_or bucket i cleared)))
          × (choice.verified ≡ ltb (price (get_or bucket i cleared)) rank)
          × All (λ e. price (get_or bucket i cleared) ≤ price e) bucket
    unfolding Least
    choose_insert_slot_least i =
        rw
          (choose_insert_slot-cheapest classify key_tag verified_offset match_any_tag new_offset
            bucket ok)
          (Least-cheapest (cheapest (map price bucket)) i refl)

    -- A bucket with a slot always gives one.
    pub choose_insert_slot_some : 0 < length bucket → (i : ℕ) × (choice.slot ≡ some i)
    unfolding choice_of
    choose_insert_slot_some h =
        let (b, e) = cheapest-some bucket h in
        (
          b.0,
          rw (
            choose_insert_slot-cheapest classify key_tag verified_offset match_any_tag new_offset
                bucket ok,
            e,
          ),
        )

    -- The verified slot carries the tag.
    pub verified_tag :
        (i : ℕ)
        → choice.slot ≡ some i
        → (choice.verified ≡ false) ⊎ (tag (get_or bucket i cleared) ≡ key_tag)
    unfolding is_verified
    verified_tag i h =
        let (_, _, v, _) = choose_insert_slot_least i h in
        elim (Bool-cases choice.verified) [
          | inl hit ↦
              let (_, same) = cost_verified (get_or bucket i cleared) (sym v ∙ hit) in
              inr (ground arith)
          | inr miss ↦ inl miss
        ]
