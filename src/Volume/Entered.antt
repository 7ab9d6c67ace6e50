-- ===== src/Volume/Entered.antt =====
-- src/core/volume.cpp: the state of a stripe with retention between two operations, and the part of
-- a reservation under its lock.
use native.Mathlib.Nat.{div-eq_of_lt-le, mod-eq_of_lt, mul-add-mod_self_right, div-le_self}
use cyclone_cache.Common.{
  ℕ, ◌+◌, ◌*◌, ◌/◌, ◌%◌, ◌^◌, ◌<◌, ◌≤◌, ◌≡◌, refl, sym, ◌∙◌, ap, subst, inl, inr, Bool, true, false,
  not, ◌&&◌, ◌||◌, leb, ◌==◌, if◌then◌else◌, Bool-cases, if-both, arith,
}
use cyclone_cache.Common.Words.{word_add}
use cyclone_cache.Volume.{Stripe, pass_of}
use cyclone_cache.Volume.Frontier.{Core, core, IsOpen, pass_of-div}
use cyclone_cache.Volume.Wrap.{WriteLockToken, repair_wrap_state, repair_after_forced_release}
use cyclone_cache.Volume.Reserve.{Answers, adopt_cursor, count_lock, count_usurp_abort, enter_lock}
use cyclone_cache.Volume.Steps.{repair_wrap_state-core, repaired_core, completed_gen}
use cyclone_cache.Volume.Safety.{
  IsAt, SameShape, pass_index, frontier_at, fresh_pass, IsOpen-moved, gen_exact, dropped_cursors,
}

abbrev pub entry_test : Core → Bool
entry_test c =
    c.use_mmap_directory
    && (leb c.data_offset c.shared_write_pos && leb c.shared_write_pos (word_add c.offset c.size))

-- The cursor that the next reservation starts from.
abbrev pub entry_cursor : Core → ℕ
entry_cursor c = if entry_test c then c.shared_write_pos else c.write_pos

abbrev pub entered : Core → Core
entered c = record c { write_pos = entry_cursor c }

-- The cursor lies in the data area, at or under the frontier of the generation.
abbrev pub IsSafe : Core → Type 0
IsSafe c = IsAt (entered c) (pass_index c) (frontier_at c)

-- The indices of a generation.
pub IsAt-pass_index :
    (c : Core) (pass f : ℕ) → IsAt c pass f → (pass_index c ≡ pass) × (frontier_at c ≡ f)
IsAt-pass_index c pass f at =
    let m = c.chunks + 1 in
    let quotient : c.exposure_gen / m ≡ pass =
      div-eq_of_lt-le m (omega (arith, at.gen)) (omega (arith, at.gen, at.index)) in
    let small : f % m ≡ f = mod-eq_of_lt (omega (arith, at.index)) in
    let remainder : c.exposure_gen % m ≡ f =
      ap (λ (x : ℕ). x % m) at.gen ∙ mul-add-mod_self_right pass m f ∙ small in
    (quotient, omega (arith, remainder, at.index))

-- A cursor that is where the next reservation would start from is safe where it is at a frontier.
pub settled : (c : Core) (pass f : ℕ) → IsAt c pass f → entry_cursor c ≡ c.write_pos → IsSafe c
settled c pass f at same = let index = IsAt-pass_index c pass f at in rw (same, index.0, index.1) at

pub adopt_cursor-core :
    (s : Stripe) → s.use_mmap_directory ≡ true → core (adopt_cursor s) ≡ entered (core s)
unfolding adopt_cursor
adopt_cursor-core s mmap =
    elim (Bool-cases
      (leb s.data_offset s.shared_write_pos && leb s.shared_write_pos (word_add s.offset s.size))) [
        | inl inside ↦ rw (mmap, inside) refl
        | inr outside ↦ rw (mmap, outside) refl
      ]

-- The cursor of a state that has taken over its cursor stays where the next reservation starts from.
pub entered_twice : (c : Core) → entry_cursor (entered c) ≡ entry_cursor c
entered_twice c = elim (Bool-cases (entry_test c)) [
  | inl inside ↦ rw inside refl
  | inr outside ↦ rw outside refl
]

-- So does one that a wrap has dropped.
pub entry_dropped :
    (c : Core) (g : ℕ)
    → entry_cursor (record c {
      write_pos = c.data_offset;
      shared_write_pos = (dropped_cursors true c).1;
      exposure_gen = g;
    })
      ≡ c.data_offset
entry_dropped c g = elim (Bool-cases c.use_mmap_directory) [
  | inl mmap ↦ rw mmap (if-both (λ (v : ℕ). v ≡ c.data_offset) _ _ _ refl refl)
  | inr local ↦ rw local refl
]

pub entry_low :
    (c : Core) (g : ℕ)
    → entry_cursor
        (record c { write_pos = c.data_offset; shared_write_pos = c.data_offset; exposure_gen = g })
      ≡ c.data_offset
entry_low c g = if-both (λ (v : ℕ). v ≡ c.data_offset) _ _ _ refl refl

-- Both cursors at the start of the data area are safe, in the pass as it is and in the next.
pub low_same :
    (c : Core)
    → IsSafe c
    → IsSafe (record c { write_pos = c.data_offset; shared_write_pos = c.data_offset })
low_same c safe = rw (entry_low c c.exposure_gen) (record {
  open' = IsOpen-moved (entered c) c.data_offset c.data_offset c.exposure_gen safe.open';
  gen = safe.gen;
  index = safe.index;
  low = omega arith;
  high = omega (arith, safe.open'.area);
  pass_room = safe.pass_room;
})

pub low_next :
    (c : Core) (g : ℕ)
    → IsSafe c
    → pass_index c + 1 < 2 ^ 50
    → g ≡ (pass_index c + 1) * (c.chunks + 1)
    → IsSafe
        (record c { write_pos = c.data_offset; shared_write_pos = c.data_offset; exposure_gen = g })
low_next c g safe room is_gen =
    settled
      (record c { write_pos = c.data_offset; shared_write_pos = c.data_offset; exposure_gen = g })
      (pass_index c + 1) 0
      (fresh_pass (entered c) (pass_index c + 1) c.data_offset g safe.open' room is_gen)
      (entry_low c g)

abbrev pub Repaired : Core → Core → Type 0
Repaired b c =
    IsSafe c
    × SameShape b c
    × (b.exposure_gen ≤ c.exposure_gen)
    × (c.exposure_gen ≤ b.exposure_gen + 65)

pub Repaired-choice :
    (c : Core) (g : ℕ) (local step out : Bool)
    → IsSafe c
    → pass_index c + 1 < 2 ^ 50
    → g ≡ (pass_index c + 1) * (c.chunks + 1)
    → Repaired c (repaired_core local step out g c)
Repaired-choice c g true step out safe room is_gen = (safe, refl, omega arith, omega arith)
Repaired-choice c g false true true safe room is_gen =
    (low_same c safe, refl, omega arith, omega arith)
Repaired-choice c g false true false safe room is_gen = (
  low_next c g safe room is_gen,
  refl,
  omega (arith, safe.gen, safe.index, is_gen),
  omega (arith, safe.gen, safe.open'.chunk_limit, is_gen),
)
Repaired-choice c g false false out safe room is_gen = (safe, refl, omega arith, omega arith)

pub repair_wrap_state_lem :
    (now : ℕ) (s : Stripe)
    → s.retain ≡ true
    → IsSafe (core s)
    → s.exposure_gen < 2 ^ 49
    → Repaired (core s) (core (repair_wrap_state now s))
repair_wrap_state_lem now s retain safe room =
    let c = core s in
    let o : IsOpen c =
      IsOpen-moved (entered c) s.write_pos s.shared_write_pos s.exposure_gen safe.open' in
    let index : pass_of s s.exposure_gen ≡ pass_index c =
      pass_of-div s o s.exposure_gen (omega arith) in
    let small : pass_index c ≤ s.exposure_gen = div-le_self s.exposure_gen (s.chunks + 1) in
    let next : word_add (pass_index c) 1 ≡ pass_index c + 1 = omega arith in
    let gen = gen_exact (pass_index c + 1) s.chunks 0 (omega arith) o.chunk_limit (omega arith) in
    let target : completed_gen s (word_add (pass_of s s.exposure_gen) 1)
        ≡ (pass_index c + 1) * (s.chunks + 1) =
      rw (index, next, retain) (omega (arith, gen)) in
    subst (Repaired c) (sym (repair_wrap_state-core now s)) (
      Repaired-choice c _ (not s.use_mmap_directory) (s.wrap_intent == 2 || s.wrap_intent == 3)
        (pass_of s s.exposure_gen % 2 == (if s.wrap_intent == 3 then 1 else 0)) safe (omega arith)
        target)

-- The cursor is where the next reservation starts from.
abbrev pub IsSettled : Core → Type 0
IsSettled c = entry_cursor c ≡ c.write_pos

pub entered-IsSettled : (b c : Core) → Repaired b c → Repaired b (entered c) × IsSettled (entered c)
entered-IsSettled b c repaired =
    let safe : IsSafe (entered c) = rw (entered_twice c) repaired.0 in
    let shape : SameShape b (entered c) =
      ap
        (λ (x : Core). record x {
          write_pos = entry_cursor c;
          shared_write_pos = c.shared_write_pos;
          exposure_gen = c.exposure_gen;
        })
        repaired.1 in
    ((safe, shape, repaired.2, repaired.3), entered_twice c)

pub IsSettled-local : (c : Core) → c.use_mmap_directory ≡ false → IsSettled c
IsSettled-local c local = let outside : entry_test c ≡ false = rw local refl in rw outside refl

pub repair_after_forced_release_lem :
    (now : ℕ) (token : WriteLockToken) (s : Stripe)
    → s.retain ≡ true
    → IsSafe (core s)
    → s.exposure_gen < 2 ^ 49
    → Repaired (core s) (core (repair_after_forced_release now token s))
unfolding repair_after_forced_release
repair_after_forced_release_lem now token s retain safe room =
    if-both (λ (t : Stripe). Repaired (core s) (core t))
      (token.acquired && (token.forced_release && not token.escalated_takeover)) _ s
      (repair_wrap_state_lem now s retain safe room) (safe, refl, omega arith, omega arith)

pub not-true : (b : Bool) → not b ≡ true → b ≡ false
not-true b h = ground arith

pub not-false : (b : Bool) → not b ≡ false → b ≡ true
not-false b h = ground arith

-- A state that the lock lets in goes on from its entry cursor.
pub enter_lock_lem :
    (answers : Answers) (s : Stripe)
    → s.retain ≡ true
    → IsSafe (core s)
    → s.exposure_gen < 2 ^ 49
    → let r = enter_lock answers s in
      Repaired (core s) (core r.0) × (r.1 ≡ true → entry_cursor (core r.0) ≡ r.0.write_pos)
unfolding enter_lock count_lock count_usurp_abort
enter_lock_lem answers s retain safe room =
    let c = core s in
    let same : Repaired c c = (safe, refl, omega arith, omega arith) in
    elim (Bool-cases (not s.use_mmap_directory)) [
      | inl local ↦
          let here = not-true s.use_mmap_directory local in
          rw local (same, λ _. IsSettled-local c here)
      | inr mmap ↦ elim (Bool-cases (not answers.token.acquired)) [
        | inl refused ↦ rw (mmap, refused) (same, λ no. absurd (ground arith))
        | inr acquired ↦ elim (Bool-cases (not answers.still_held)) [
          | inl usurped ↦ rw (mmap, acquired, usurped) (same, λ no. absurd (ground arith))
          | inr held ↦
              let counted = count_lock answers.token s in
              let t = repair_after_forced_release answers.now_repair answers.token counted in
              let repaired : Repaired c (core t) =
                repair_after_forced_release_lem answers.now_repair answers.token counted retain safe
                  room in
              let mapped : t.use_mmap_directory ≡ true =
                ap (λ (x : Core). x.use_mmap_directory) repaired.1
                ∙ not-false s.use_mmap_directory mmap in
              let settled' : Repaired c (core (adopt_cursor t))
                  × IsSettled (core (adopt_cursor t)) =
                subst (λ (x : Core). Repaired c x × IsSettled x) (sym (adopt_cursor-core t mapped))
                  (entered-IsSettled c (core t) repaired) in
              rw (mmap, acquired, held) (settled'.0, λ _. settled'.1)
        ]
      ]
    ]
