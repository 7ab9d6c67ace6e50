-- ===== src/Volume/Safety.antt =====
-- src/core/volume.cpp: where a reservation of a stripe with retention lies.
use native.Mathlib.Nat.{mul-le-mul, mul-le-mul_right}
use cyclone_cache.Common.{
  ℕ, ◌+◌, ◌-◌, ◌*◌, ◌/◌, ◌%◌, ◌^◌, ◌<◌, ◌≤◌, ◌≡◌, ◌⊎◌, refl, sym, ◌∙◌, ap, subst, min, inl, inr,
  Bool, true, false, ◌&&◌, Option, none, some, ltb, leb, if◌then◌else◌, Bool-cases, if-both, leb→le,
  arith,
}
use cyclone_cache.Common.Words.{word_add, word_sub, word_mul}
use cyclone_cache.Volume.{Stripe, VolumeConfig, chunk_index_ceil}
use cyclone_cache.Volume.Frontier.{
  Core, core, IsOpen, frontier_of, frontier_rel_of_lem, chunk_index_ceil_lem,
  chunk_index_ceil-limit,
}
use cyclone_cache.Volume.Lease.{set_wrap_intent}
use cyclone_cache.Volume.Wrap.{
  wrap_to, record_wrap, store_exposure_gen, publish_wrap_phase, set_current_phase, drop_cursor,
  mark_wrap_committed,
}
use cyclone_cache.Volume.Reserve.{
  Answers, advance_frontier, prepare_wrap, mandatory_advance, early_advance, retention_prepare,
  frontier_abs, count_deferred_advance, count_skipped_advance,
}
use cyclone_cache.Volume.Steps.{with_gen, advance_frontier-core}

-- The generation is that of a pass and a frontier index, and the cursor lies in the data area, at
-- or under the frontier.
pub record IsAt (c : Core) (pass f : ℕ) : Type 0 where
  pub open' : IsOpen c
  pub gen : c.exposure_gen ≡ pass * (c.chunks + 1) + f
  pub index : f ≤ c.chunks
  pub low : c.data_offset ≤ c.write_pos
  pub high : c.write_pos ≤ frontier_of c f
  pub pass_room : pass < 2 ^ 50

-- Only the cursors and the generation may differ.
abbrev pub SameShape : Core → Core → Type 0
SameShape b c = c ≡ record b {
  write_pos = c.write_pos;
  shared_write_pos = c.shared_write_pos;
  exposure_gen = c.exposure_gen;
}

pub SameShape-trans : (a b c : Core) → SameShape a b → SameShape b c → SameShape a c
SameShape-trans a b c p q =
    q
    ∙ ap
        (λ (x : Core). record x {
          write_pos = c.write_pos;
          shared_write_pos = c.shared_write_pos;
          exposure_gen = c.exposure_gen;
        })
        p

pub gen_exact :
    (pass n t : ℕ)
    → pass < 2 ^ 50
    → n ≤ 64
    → t ≤ n
    → word_add (word_mul pass (n + 1)) t ≡ pass * (n + 1) + t
gen_exact pass n t room limit inside =
    let p : pass ≤ 2 ^ 50 = omega arith in
    let m : n + 1 ≤ 65 = omega arith in
    let product : pass * (n + 1) ≤ 2 ^ 50 * 65 = mul-le-mul p m in omega (arith, product)

frontier_of_mono : (c : Core) (f g : ℕ) → f ≤ g → frontier_of c f ≤ frontier_of c g
frontier_of_mono c f g h = omega (arith, mul-le-mul_right c.chunk_size h)

pub IsOpen-moved :
    (c : Core) (w sh g : ℕ)
    → IsOpen c
    → IsOpen (record c { write_pos = w; shared_write_pos = sh; exposure_gen = g })
IsOpen-moved c w sh g o = record {
  start = o.start;
  area = o.area;
  room = o.room;
  some_chunk = o.some_chunk;
  chunk_limit = o.chunk_limit;
  some_bytes = o.some_bytes;
  chunk_room = o.chunk_room;
  cover = o.cover;
  last_chunk = o.last_chunk;
  gen_division = o.gen_division;
  chunk_division = o.chunk_division;
}

-- The start of a pass.
pub fresh_pass :
    (c : Core) (pass sh g : ℕ)
    → IsOpen c
    → pass < 2 ^ 50
    → g ≡ pass * (c.chunks + 1)
    → IsAt (record c { write_pos = c.data_offset; shared_write_pos = sh; exposure_gen = g }) pass 0
fresh_pass c pass sh g o room is_gen = record {
  open' = IsOpen-moved c c.data_offset sh g o;
  gen = omega (arith, is_gen);
  index = omega arith;
  low = omega arith;
  high = omega (arith, o.area);
  pass_room = room;
}

-- The frontier moves ahead.
moved_frontier :
    (c : Core) (pass f t g : ℕ)
    → IsAt c pass f
    → f ≤ t
    → t ≤ c.chunks
    → g ≡ pass * (c.chunks + 1) + t
    → IsAt (with_gen g c) pass t
moved_frontier c pass f t g at ahead inside is_gen = record {
  open' = IsOpen-moved c c.write_pos c.shared_write_pos g at.open';
  gen = is_gen;
  index = inside;
  low = at.low;
  high = omega (arith, at.high, frontier_of_mono c f t ahead);
  pass_room = at.pass_room;
}

abbrev pub cursors : Core → ℕ × ℕ
cursors c = (c.write_pos, c.shared_write_pos)

-- The cursors after a wrap.
abbrev pub dropped_cursors : Bool → Core → ℕ × ℕ
dropped_cursors still_held c = (
  c.data_offset,
  if c.use_mmap_directory && still_held then c.data_offset else c.shared_write_pos,
)

abbrev pub Advanced : Core → Core → ℕ → ℕ → Type 0
Advanced b c pass t =
    IsAt c pass t × SameShape b c × (b.exposure_gen ≤ c.exposure_gen) × (cursors c ≡ cursors b)

Advanced-choice :
    (c : Core) (pass f t g : ℕ) (behind go : Bool)
    → IsAt c pass f
    → (behind ≡ false → f ≤ t)
    → t ≤ c.chunks
    → g ≡ pass * (c.chunks + 1) + t
    → Advanced c
        (if behind then c else if go then with_gen g c else c)
        pass
        (if behind then f else if go then t else f)
Advanced-choice c pass f t g true go at ahead inside is_gen = (at, refl, omega arith, refl)
Advanced-choice c pass f t g false true at ahead inside is_gen = (
  moved_frontier c pass f t g at (ahead refl) inside is_gen,
  refl,
  omega (arith, at.gen, is_gen, ahead refl),
  refl,
)
Advanced-choice c pass f t g false false at ahead inside is_gen = (at, refl, omega arith, refl)

index_ahead : (f t : ℕ) (go : Bool) → f ≤ (if leb t f then f else if go then t else f)
index_ahead f t go = elim (Bool-cases (leb t f)) [
  | inl behind ↦ rw behind (omega arith)
  | inr ahead ↦ rw ahead (if-both (λ (v : ℕ). f ≤ v) go t f (ground arith) (omega arith))
]

abbrev pub pass_index : Core → ℕ
pass_index c = c.exposure_gen / (c.chunks + 1)

abbrev pub frontier_at : Core → ℕ
frontier_at c = min (c.exposure_gen % (c.chunks + 1)) c.chunks

-- What a preparation for `doc` bytes leaves, and its result.
pub record Prepared (still_held : Bool) (b c : Core) (result : Option ℕ) (doc : ℕ) : Type 0 where
  pub pass : ℕ
  pub f : ℕ
  pub at : IsAt c pass f
  pub shape : SameShape b c
  pub grows : b.exposure_gen ≤ c.exposure_gen
  pub place : (cursors c ≡ cursors b) ⊎ (cursors c ≡ dropped_cursors still_held b)
  pub given : (result ≡ none) ⊎ ((result ≡ some pass) × (c.write_pos + doc ≤ frontier_of c f))

same_place : (w w' d x : ℕ × ℕ) → w' ≡ w → (w ≡ x) ⊎ (w ≡ d) → (w' ≡ x) ⊎ (w' ≡ d)
same_place w w' d x e (inl p) = inl (e ∙ p)
same_place w w' d x e (inr p) = inr (e ∙ p)

module _ (config : VolumeConfig) (answers : Answers) where
  -- A wrap starts the next pass at the start of the data area; without one the document fits.
  pub prepare_wrap_lem :
      (doc pass f : ℕ) (s : Stripe)
      → IsAt (core s) pass f
      → pass + 1 < 2 ^ 50
      → pass ≡ s.exposure_gen / (s.chunks + 1)
      → f ≡ min (s.exposure_gen % (s.chunks + 1)) s.chunks
      → doc ≤ s.offset + s.size - s.data_offset
      → let r = prepare_wrap answers doc s in
        IsAt (core r.0) r.1.0 r.1.1
        × ((core r.0).write_pos + doc ≤ s.offset + s.size)
        × SameShape (core s) (core r.0)
        × (s.exposure_gen ≤ (core r.0).exposure_gen)
        × ((cursors (core r.0) ≡ cursors (core s))
            ⊎ (cursors (core r.0) ≡ dropped_cursors answers.still_held_at_wrap (core s)))
  unfolding prepare_wrap wrap_to set_wrap_intent record_wrap store_exposure_gen publish_wrap_phase
      set_current_phase drop_cursor mark_wrap_committed
  prepare_wrap_lem doc pass f s at room is_pass is_f fits =
      elim (Bool-cases (ltb (word_sub (word_add s.offset s.size) s.write_pos) doc)) [
        | inl wrap ↦
            let next : word_add pass 1 ≡ pass + 1 = omega arith in
            let gen = gen_exact (pass + 1) s.chunks 0 room at.open'.chunk_limit (omega arith) in
            let start : word_mul (pass + 1) (s.chunks + 1) ≡ (pass + 1) * (s.chunks + 1) =
              omega (arith, gen) in
            rw (wrap, sym is_pass, next)
              (
                fresh_pass (core s) (pass + 1) _ _ at.open' room start,
                omega (arith, fits, at.open'.area),
                refl,
                omega (arith, start, at.gen, at.index),
                inr refl,
              )
        | inr stay ↦
            let left : word_sub (word_add s.offset s.size) s.write_pos
                ≡ s.offset + s.size - s.write_pos =
              omega (arith, at.open'.room, at.high) in
            let room_left : doc ≤ s.offset + s.size - s.write_pos = ground (arith, left, stay) in
            rw (stay, sym is_pass, sym is_f)
              (at, omega (arith, room_left, at.high), refl, omega arith, inl refl)
      ]

  pub advance_frontier_lem :
      (now pass f t : ℕ) (episode : Bool) (s : Stripe)
      → IsAt (core s) pass f
      → t ≤ s.chunks
      → let r = advance_frontier config now pass f t episode s in
        Advanced (core s) (core r.0) pass (if leb t f then f else if r.1 then t else f)
  advance_frontier_lem now pass f t episode s at inside =
      let r = advance_frontier config now pass f t episode s in
      let result = advance_frontier-core config now pass f t episode s in
      let gen = gen_exact pass s.chunks t at.pass_room at.open'.chunk_limit inside in
      subst (λ (c : Core). Advanced (core s) c pass (if leb t f then f else if r.1 then t else f))
        (sym result)
        (Advanced-choice (core s) pass f t _ (leb t f) r.1 at (λ ahead. ground arith) inside gen)

  pub mandatory_advance_lem :
      (pass f need : ℕ) (s : Stripe)
      → IsAt (core s) pass f
      → need ≤ s.offset + s.size
      → let r = mandatory_advance config answers pass f need s in
        Advanced (core s) (core r.0) pass r.1.1 × (r.1.0 ≡ true → need ≤ frontier_of (core s) r.1.1)
  unfolding mandatory_advance count_deferred_advance
  mandatory_advance_lem pass f need s at inside =
      let t = chunk_index_ceil s need in
      let target = chunk_index_ceil_lem s at.open' need inside in
      let frontier : frontier_abs s f ≡ frontier_of (core s) f =
        omega (arith, frontier_rel_of_lem s at.open' f, at.open'.room) in
      let r = advance_frontier config answers.now_gate pass f t true s in
      let step = advance_frontier_lem answers.now_gate pass f t true s at target.1 in
      elim (Bool-cases (ltb (frontier_abs s f) need)) [
        | inl short ↦
            let past : frontier_of (core s) f < need = ground (arith, frontier) in
            let ahead : leb t f ≡ false = elim (Bool-cases (leb t f)) [
              | inl behind ↦
                  absurd (
                    omega
                      (arith, frontier_of_mono (core s) t f (leb→le t f behind), target.0, past))
              | inr beyond ↦ beyond
            ] in
            let moved : Advanced (core s) (core r.0) pass (if r.1 then t else f) =
              subst
                (λ (b : Bool).
                  Advanced (core s) (core r.0) pass (if b then f else if r.1 then t else f))
                ahead step in
            elim (Bool-cases r.1) [
              | inl go ↦
                  rw (short, go)
                    (
                      subst (λ (b : Bool). Advanced (core s) (core r.0) pass (if b then t else f))
                          go moved,
                      λ _. target.0,
                    )
              | inr stay ↦
                  rw (short, stay)
                    (
                      subst (λ (b : Bool). Advanced (core s) (core r.0) pass (if b then t else f))
                          stay moved,
                      λ no. absurd (ground arith),
                    )
            ]
        | inr enough ↦ rw enough ((at, refl, omega arith, refl), λ _. ground (arith, frontier))
      ]

  -- The frontier index after an early advance that is tried.
  abbrev pub early_index : ℕ → ℕ → ℕ → Stripe → ℕ
  early_index pass f need s =
      let t = chunk_index_ceil s (word_add need (s.chunk_size / 2)) in
      let r = advance_frontier config answers.now_early pass f t false s in
      if leb t f then f else if r.1 then t else f

  pub early_advance_lem :
      (pass f need : ℕ) (s : Stripe)
      → IsAt (core s) pass f
      → let r = early_advance config answers pass f need s in
        (f' : ℕ) × (f ≤ f')
        × Advanced (core s) (core r) pass f'
        × ((f' ≡ f) ⊎ (f' ≡ early_index pass f need s))
  unfolding early_advance count_skipped_advance
  early_advance_lem pass f need s at =
      let half = s.chunk_size / 2 in
      let t = chunk_index_ceil s (word_add need half) in
      let r = advance_frontier config answers.now_early pass f t false s in
      let step =
        advance_frontier_lem answers.now_early pass f t false s at
          (chunk_index_ceil-limit s (word_add need half)) in
      let ahead : f ≤ (if leb t f then f else if r.1 then t else f) = index_ahead f t r.1 in
      elim (Bool-cases (ltb f s.chunks && ltb (word_sub (frontier_abs s f) need) half)) [
        | inl near ↦
            let P : Stripe → Type 0 = λ x.
              (f' : ℕ) × (f ≤ f')
              × Advanced (core s) (core x) pass f'
              × ((f' ≡ f) ⊎ (f' ≡ early_index pass f need s)) in
            rw near (if-both P r.1 _ _ (_, ahead, step, inr refl) (_, ahead, step, inr refl))
        | inr far ↦ rw far (f, omega arith, (at, refl, omega arith, refl), inl refl)
      ]

  pub retention_prepare_lem :
      (doc : ℕ) (s : Stripe)
      → IsAt (core s) (pass_index (core s)) (frontier_at (core s))
      → pass_index (core s) + 1 < 2 ^ 50
      → doc ≤ s.offset + s.size - s.data_offset
      → let r = retention_prepare config answers doc s in
        Prepared answers.still_held_at_wrap (core s) (core r.0) r.1 doc
  unfolding retention_prepare
  retention_prepare_lem doc s at room fits =
      let r1 = prepare_wrap answers doc s in
      let first =
        prepare_wrap_lem doc (pass_index (core s)) (frontier_at (core s)) s at room refl refl
          fits in
      let pass = r1.1.0 in
      let at1 = first.0 in
      let need : word_add r1.0.write_pos doc ≡ r1.0.write_pos + doc =
        omega (arith, first.1, at.open'.room) in
      let ends : r1.0.offset + r1.0.size ≡ s.offset + s.size =
        ap (λ (c : Core). c.offset + c.size) first.2 in
      let r2 = mandatory_advance config answers pass r1.1.1 (word_add r1.0.write_pos doc) r1.0 in
      let second =
        mandatory_advance_lem pass r1.1.1 (word_add r1.0.write_pos doc) r1.0 at1
          (omega (arith, need, first.1, ends)) in
      elim (Bool-cases r2.1.0) [
        | inl go ↦
            let third =
              early_advance_lem pass r2.1.1 (word_add r1.0.write_pos doc) r2.0 second.0.0 in
            let shape =
              SameShape-trans (core s) (core r1.0)
                (core (early_advance config answers pass r2.1.1 (word_add r1.0.write_pos doc) r2.0))
                first.2 (SameShape-trans (core r1.0) (core r2.0) _ second.0.1 third.2.1) in
            let kept : (early_advance config answers pass r2.1.1 (word_add r1.0.write_pos doc)
                  r2.0).write_pos
                ≡ r1.0.write_pos =
              ap (λ (p : ℕ × ℕ). p.0) (third.2.3 ∙ second.0.3) in
            let reach = second.1 go in
            let further = frontier_of_mono (core r1.0) r2.1.1 third.0 third.1 in
            let same2 = ap (λ (c : Core). frontier_of c third.0) second.0.1 in
            let same3 = ap (λ (c : Core). frontier_of c third.0) third.2.1 in
            rw go (record {
              pass = pass;
              f = third.0;
              at = third.2.0;
              shape = shape;
              grows = omega (arith, first.3, second.0.2, third.2.2);
              place = same_place _ _ _ _ (third.2.3 ∙ second.0.3) first.4;
              given = inr (refl, omega (arith, kept, need, reach, further, same2, same3));
            })
        | inr stay ↦ rw stay (record {
          pass = pass;
          f = r2.1.1;
          at = second.0.0;
          shape = SameShape-trans (core s) (core r1.0) (core r2.0) first.2 second.0.1;
          grows = omega (arith, first.3, second.0.2);
          place = same_place _ _ _ _ second.0.3 first.4;
          given = inl refl;
        })
      ]
