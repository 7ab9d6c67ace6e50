-- ===== src/Volume/Reserved.antt =====
-- src/core/volume.cpp: the state of a stripe with retention before and after a reservation and its
-- commit.
use native.Mathlib.Nat.{div-le_self}
use cyclone_cache.Common.{
  ℕ, ◌+◌, ◌-◌, ◌%◌, ◌^◌, ◌<◌, ◌≤◌, ◌≡◌, refl, sym, ◌∙◌, ap, subst, min, inl, inr, Bool, true, false,
  not, ◌&&◌, Option, ltb, leb, if◌then◌else◌, Bool-cases, if-both, arith,
}
use cyclone_cache.Common.Words.{word_add, word_sub}
use cyclone_cache.Volume.{Stripe, VolumeConfig, round_up_8}
use cyclone_cache.Volume.Frontier.{Core, core, IsOpen, frontier_of, frontier_rel_of_lem}
use cyclone_cache.Volume.Lease.{end_deferral_episode}
use cyclone_cache.Volume.Reserve.{
  Answers, WriteSlot, Reservation, reserved, busy, no_space, count_usurp_abort, enter_lock, reserve,
  finish_reserve, reserve_at, tail_fill, frontier_abs, prepare_space, allocate_write_slot,
  retention_prepare, flush_wrap, commit_write_slot,
}
use cyclone_cache.Volume.Steps.{end_deferral_episode-core}
use cyclone_cache.Volume.Safety.{
  SameShape-trans, IsAt, SameShape, Prepared, pass_index, frontier_at, IsOpen-moved, cursors,
  retention_prepare_lem,
}
use cyclone_cache.Volume.Entered.{
  entered, entry_test, IsSettled-local, entry_cursor, IsSafe, IsAt-pass_index, settled,
  entry_dropped, IsSettled, enter_lock_lem,
}

-- What a reservation of `doc` bytes says of the stripe it leaves: the span starts at the cursor, in
-- the data area, and ends, zeros included, at or under the frontier.
pub record IsClear (c : Core) (doc : ℕ) (slot : WriteSlot) : Type 0 where
  pub start : c.data_offset ≤ slot.write_offset
  pub cursor : slot.write_offset ≡ c.write_pos
  pub stop : slot.new_write_pos ≡ slot.write_offset + doc
  pub clean : slot.new_write_pos ≤ frontier_of c (frontier_at c)
  pub fill : slot.fill_end ≤ frontier_of c (frontier_at c)
  pub pass : slot.pass ≡ pass_index c
  pub lock : slot.holds_write_lock ≡ c.use_mmap_directory

abbrev pub IsClearOf : Core → ℕ → Reservation → Type 0
IsClearOf c doc (reserved slot) = IsClear c doc slot
IsClearOf c doc busy = Unit
IsClearOf c doc no_space = Unit

-- The cursor after a preparation is where the next reservation starts from.
Prepared-IsSettled :
    (b c : Core) (result : Option ℕ) (doc : ℕ)
    → Prepared true b c result doc
    → IsSettled b
    → IsSettled c
Prepared-IsSettled b c result doc prepared settled' =
    let at_cursors : ℕ × ℕ → ℕ = λ p.
      entry_cursor
        (record b { write_pos = p.0; shared_write_pos = p.1; exposure_gen = c.exposure_gen }) in
    let shaped : entry_cursor c ≡ at_cursors (cursors c) = ap entry_cursor prepared.shape in
    elim prepared.place [
      | inl same ↦ shaped ∙ ap at_cursors same ∙ settled' ∙ sym (ap (λ (p : ℕ × ℕ). p.0) same)
      | inr dropped ↦
          shaped
          ∙ ap at_cursors dropped
          ∙ entry_dropped b c.exposure_gen
          ∙ sym (ap (λ (p : ℕ × ℕ). p.0) dropped)
    ]

tail_fill_lem :
    (config : VolumeConfig) (doc stop : ℕ) (s : Stripe)
    → IsOpen (core s)
    → s.retain ≡ true
    → tail_fill config doc stop s ≤ frontier_of (core s) (frontier_at (core s))
unfolding tail_fill
tail_fill_lem config doc stop s open' retain =
    let rel = frontier_rel_of_lem s open' (frontier_at (core s)) in
    let abs : frontier_abs s (frontier_at (core s)) ≡ frontier_of (core s) (frontier_at (core s)) =
      omega (arith, rel, open'.room) in
    let limit = min (word_add stop 4095 - word_add stop 4095 % 4096) (word_add s.offset s.size) in
    let end' = min limit (frontier_abs s (frontier_at (core s))) in
    let chosen : (if s.retain then end' else limit) ≡ end' =
      ap (λ b. if b then end' else limit) retain in
    rw chosen (
      if-both (λ (v : ℕ). v ≤ frontier_of (core s) (frontier_at (core s)))
        (config.fill_large_document_tail && ltb 65536 doc && leb stop end') end' 0
        (omega (arith, abs)) (omega arith))

reserve_at_lem :
    (config : VolumeConfig) (answers : Answers) (doc pass f : ℕ) (s : Stripe)
    → s.retain ≡ true
    → IsAt (core s) pass f
    → s.write_pos + doc ≤ frontier_of (core s) f
    → IsClearOf (core s) doc (reserve_at config answers doc pass s)
unfolding reserve_at
reserve_at_lem config answers doc pass f s retain at fits =
    let index = IsAt-pass_index (core s) pass f at in
    let frontier : frontier_of (core s) (frontier_at (core s)) ≡ frontier_of (core s) f =
      ap (frontier_of (core s)) index.1 in
    let stop : word_add s.write_pos doc ≡ s.write_pos + doc = omega (arith, fits, at.open'.room) in
    record {
      start = at.low;
      cursor = refl;
      stop = stop;
      clean = omega (arith, stop, frontier, fits);
      fill = tail_fill_lem config doc (word_add s.write_pos doc) s at.open' retain;
      pass = sym index.0;
      lock = refl;
    }

-- What an operation leaves: a safe stripe of the same shape whose generation has not gone back.
abbrev pub IsKept : Core → Core → Type 0
IsKept b c = IsSafe c × SameShape b c × (b.exposure_gen ≤ c.exposure_gen)

finish_reserve_lem :
    (config : VolumeConfig) (answers : Answers) (doc : ℕ) (s ready : Stripe) (pass : Option ℕ)
    → s.retain ≡ true
    → Prepared true (core s) (core ready) pass doc
    → IsSettled (core s)
    → let r = finish_reserve config answers doc ready pass in
      IsKept (core s) (core r.0) × IsClearOf (core r.0) doc r.1
unfolding finish_reserve
finish_reserve_lem config answers doc s ready pass retain prepared settled' =
    let now_settled = Prepared-IsSettled (core s) (core ready) pass doc prepared settled' in
    let kept : IsKept (core s) (core ready) = (
      settled (core ready) prepared.pass prepared.f prepared.at now_settled,
      prepared.shape,
      prepared.grows,
    ) in
    let ended = end_deferral_episode-core ready in
    let same_retain : (end_deferral_episode ready).retain ≡ true =
      ap (λ (c : Core). c.retain) (ended ∙ prepared.shape) ∙ retain in
    elim prepared.given [
      | inl refused ↦ rw refused (kept, tt)
      | inr granted ↦ rw granted.0 (
        subst (IsKept (core s)) (sym ended) kept,
        reserve_at_lem config answers doc prepared.pass prepared.f (end_deferral_episode ready)
            same_retain
            (subst (λ (c : Core). IsAt c prepared.pass prepared.f) (sym ended) prepared.at)
            (subst (λ (c : Core). c.write_pos + doc ≤ frontier_of c prepared.f) (sym ended)
              granted.1),
      )
    ]

pub reserve_lem :
    (config : VolumeConfig) (answers : Answers) (doc : ℕ) (s : Stripe)
    → s.retain ≡ true
    → answers.still_held_at_wrap ≡ true
    → IsSafe (core s)
    → IsSettled (core s)
    → pass_index (core s) + 1 < 2 ^ 50
    → let r = reserve config answers doc s in
      IsKept (core s) (core r.0) × IsClearOf (core r.0) doc r.1
unfolding reserve prepare_space
reserve_lem config answers doc s retain held safe settled' room =
    let at : IsAt (core s) (pass_index (core s)) (frontier_at (core s)) =
      subst
        (λ (w : ℕ).
          IsAt (record (core s) { write_pos = w }) (pass_index (core s)) (frontier_at (core s)))
        settled' safe in
    let taken : prepare_space config answers doc s ≡ retention_prepare config answers doc s =
      ap
        (λ (b : Bool).
          if b then retention_prepare config answers doc s else flush_wrap config answers doc s)
        retain in
    elim (Bool-cases (ltb (word_sub (word_add s.offset s.size) s.data_offset) doc)) [
      | inl large ↦ rw large ((safe, refl, omega arith), tt)
      | inr fits ↦
          let whole : word_sub (word_add s.offset s.size) s.data_offset
              ≡ s.offset + s.size - s.data_offset =
            omega (arith, safe.open'.room, safe.open'.area) in
          let doc_fits : doc ≤ s.offset + s.size - s.data_offset = ground (arith, whole, fits) in
          let ready = prepare_space config answers doc s in
          let prepared : Prepared true (core s) (core ready.0) ready.1 doc = rw taken (
            subst
              (λ (b : Bool).
                Prepared b (core s) (core (retention_prepare config answers doc s).0)
                  (retention_prepare config answers doc s).1 doc)
              held (retention_prepare_lem config answers doc s at room doc_fits)) in
          rw fits (finish_reserve_lem config answers doc s ready.0 ready.1 retain prepared settled')
    ]

pub allocate_write_slot_lem :
    (config : VolumeConfig) (answers : Answers) (doc : ℕ) (s : Stripe)
    → s.retain ≡ true
    → answers.still_held_at_wrap ≡ true
    → IsSafe (core s)
    → s.exposure_gen < 2 ^ 49
    → let r = allocate_write_slot config answers doc s in
      IsKept (core s) (core r.0) × IsClearOf (core r.0) (round_up_8 doc) r.1
unfolding allocate_write_slot
allocate_write_slot_lem config answers doc s retain held safe room =
    let e = enter_lock answers s in
    let entry = enter_lock_lem answers s retain safe room in
    let retain' : e.0.retain ≡ true = ap (λ (c : Core). c.retain) entry.0.1 ∙ retain in
    let small : pass_index (core e.0) ≤ e.0.exposure_gen =
      div-le_self e.0.exposure_gen (e.0.chunks + 1) in
    elim (Bool-cases e.1) [
      | inl in' ↦
          let done =
            reserve_lem config answers (round_up_8 doc) e.0 retain' held entry.0.0 (entry.1 in')
              (omega (arith, small, entry.0.3)) in
          rw in' (
            (
              done.0.0,
              SameShape-trans (core s) (core e.0)
                  (core (reserve config answers (round_up_8 doc) e.0).0) entry.0.1 done.0.1,
              omega (arith, entry.0.2, done.0.2),
            ),
            done.1,
          )
      | inr out ↦ rw out ((entry.0.0, entry.0.1, entry.0.2), tt)
    ]

-- The commit of a span moves the cursor to its end, or leaves the stripe as it is.
pub commit_write_slot_lem :
    (doc : ℕ) (slot : WriteSlot) (still_held fill_ok : Bool) (s : Stripe)
    → IsSafe (core s)
    → IsClear (core s) doc slot
    → IsKept (core s) (core (commit_write_slot slot still_held fill_ok s).0)
unfolding commit_write_slot count_usurp_abort
commit_write_slot_lem doc slot still_held fill_ok s safe clear =
    let c = core s in
    let same : IsKept c c = (safe, refl, omega arith) in
    let at : (sh : ℕ)
        → IsAt (record c { write_pos = slot.new_write_pos; shared_write_pos = sh }) (pass_index c)
            (frontier_at c) =
      λ sh. record {
        open' = IsOpen-moved (entered c) slot.new_write_pos sh s.exposure_gen safe.open';
        gen = safe.gen;
        index = safe.index;
        low = omega (arith, clear.start, clear.stop);
        high = clear.clean;
        pass_room = safe.pass_room;
      } in
    let new = slot.new_write_pos in
    let local : Core = record c { write_pos = new } in
    let both : Core = record c { write_pos = new; shared_write_pos = new } in
    let both_kept : IsKept c both = (
      settled both _ _ (at new) (if-both (λ (v : ℕ). v ≡ new) (entry_test both) new new refl refl),
      refl,
      omega arith,
    ) in
    elim (Bool-cases slot.holds_write_lock) [
      | inr unlocked ↦
          let here : c.use_mmap_directory ≡ false = sym clear.lock ∙ unlocked in
          let local_kept : IsKept c local = (
            settled local _ _ (at c.shared_write_pos) (IsSettled-local local here),
            refl,
            omega arith,
          ) in
          rw unlocked (
            if-both (λ (t : Stripe). IsKept c (core t)) fill_ok (record s { write_pos = new }) s
              local_kept same)
      | inl locked ↦ rw locked (
          if-both (λ (r : Stripe × Bool). IsKept c (core r.0)) (not still_held) _ _ same
            (if-both (λ (t : Stripe). IsKept c (core t)) fill_ok
              (record s { write_pos = new; shared_write_pos = new }) s both_kept same))
    ]
