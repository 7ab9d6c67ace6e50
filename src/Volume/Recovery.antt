-- ===== src/Volume/Recovery.antt =====
-- src/core/volume.cpp: the wrap that a dead writer had committed.
use native.Mathlib.Nat.{div-eq_of_lt-le, div-le_self, lt-div-mul-add}
use cyclone_cache.Common.{
  ℕ, ◌+◌, ◌*◌, ◌/◌, ◌%◌, ◌^◌, ◌<◌, ◌≤◌, ◌≡◌, refl, sym, ◌∙◌, ap, subst, inl, inr, Bool, true, false,
  not, ◌||◌, ◌==◌, if◌then◌else◌, Bool-cases, if-both, arith,
}
use cyclone_cache.Common.Words.{word_add}
use cyclone_cache.Volume.{Stripe, pass_of}
use cyclone_cache.Volume.Frontier.{Core, core, IsOpen, pass_of-div}
use cyclone_cache.Volume.Wrap.{repair_wrap_state, repaired_pass, set_current_phase}
use cyclone_cache.Volume.Lease.{set_wrap_intent}
use cyclone_cache.Volume.Safety.{pass_index, gen_exact}
use cyclone_cache.Volume.Steps.{repair_wrap_state-core, repaired_core, lowered_core, completed_gen}

abbrev pub parity_of : Bool → ℕ
parity_of odd = if odd then 1 else 0

-- The state in which a repair leaves a stripe in a committed wrap to a pass of parity `p`.
pub record IsCompleted (p : ℕ) (b : Core) (phase : Bool) (c : Core) : Type 0 where
  pub cursor : c.write_pos ≡ c.data_offset
  pub shared_cursor : c.shared_write_pos ≡ c.data_offset
  pub parity : pass_index c % 2 ≡ p
  pub phase_of : phase ≡ (pass_index c % 2 == 1)
  pub grows : b.exposure_gen ≤ c.exposure_gen

completed-pass_index :
    (s : Stripe) (pass : ℕ)
    → IsOpen (core s)
    → pass < 2 ^ 50
    → (completed_gen s pass / (s.chunks + 1) ≡ pass)
      × (pass * (s.chunks + 1) ≤ completed_gen s pass)
completed-pass_index s pass o room =
    let last : (if s.retain then 0 else s.chunks) ≤ s.chunks =
      if-both (λ (v : ℕ). v ≤ s.chunks) s.retain 0 s.chunks (omega arith) (omega arith) in
    let gen = gen_exact pass s.chunks (if s.retain then 0 else s.chunks) room o.chunk_limit last in
    (
      div-eq_of_lt-le (s.chunks + 1) (omega (arith, gen)) (omega (arith, gen, last)),
      omega (arith, gen),
    )

repair_wrap_state-phase :
    (now : ℕ) (s : Stripe)
    → s.use_mmap_directory ≡ true
    → ((repair_wrap_state now s).wrap_intent ≡ 0)
      × ((repair_wrap_state now s).current_phase
          ≡ (repaired_pass s (pass_of s s.exposure_gen) % 2 == 1))
unfolding repair_wrap_state set_wrap_intent set_current_phase
repair_wrap_state-phase now s mmap =
    let mapped : not s.use_mmap_directory ≡ false = rw mmap refl in rw mapped (refl, refl)

committed_intent :
    (odd : Bool) (intent : ℕ)
    → intent ≡ (if odd then 3 else 2)
    → ((intent == 2 || intent == 3) ≡ true)
      × (parity_of odd ≡ parity_of (intent == 3))
      × (parity_of (intent == 3) ≤ 1)
committed_intent true intent h = rw h (refl, refl, omega arith)
committed_intent false intent h = rw h (refl, refl, omega arith)

odd_next : (x p : ℕ) → p ≤ 1 → (x % 2 == p) ≡ false → (x + 1) % 2 ≡ p
odd_next x p h differ = ground arith

chosen :
    (local step out b : Bool) (g g' : ℕ) (c : Core)
    → local ≡ false
    → step ≡ true
    → out ≡ b
    → g ≡ g'
    → repaired_core local step out g c
      ≡ (if b then lowered_core c.exposure_gen c else lowered_core g' c)
chosen local step out b g g' c h1 h2 h3 h4 = rw (h1, h2, h3, h4) refl

-- The repair of a committed wrap finishes it, however far its writer had come: the intent is clear, both
-- cursors are at the start of the data area, the pass has the parity of the wrap, the phase is that of the
-- pass, and the generation has not gone back.
pub repair_wrap_state-completes :
    (now : ℕ) (odd : Bool) (s : Stripe)
    → s.use_mmap_directory ≡ true
    → IsOpen (core s)
    → s.exposure_gen < 2 ^ 49
    → s.wrap_intent ≡ (if odd then 3 else 2)
    → let t = repair_wrap_state now s in
      (t.wrap_intent ≡ 0) × IsCompleted (parity_of odd) (core s) t.current_phase (core t)
unfolding repaired_pass
repair_wrap_state-completes now odd s mmap o room committed =
    let c = core s in
    let t = repair_wrap_state now s in
    let p = parity_of (s.wrap_intent == 3) in
    let index : pass_of s s.exposure_gen ≡ pass_index c =
      pass_of-div s o s.exposure_gen (omega arith) in
    let small : pass_index c ≤ s.exposure_gen = div-le_self s.exposure_gen (s.chunks + 1) in
    let next : word_add (pass_index c) 1 ≡ pass_index c + 1 = omega arith in
    let mapped : not s.use_mmap_directory ≡ false = rw mmap refl in
    let known = committed_intent odd s.wrap_intent committed in
    let phase = repair_wrap_state-phase now s mmap in
    let result = repair_wrap_state-core now s in
    (
      phase.0,
      rw known.1 (elim (Bool-cases (pass_index c % 2 == p)) [
        | inl out ↦
            let moved : core t ≡ lowered_core s.exposure_gen c =
              result ∙ chosen _ _ _ true _ _ c mapped known.0 (rw index out) refl in
            let pass : repaired_pass s (pass_of s s.exposure_gen) ≡ pass_index c =
              rw (known.0, index, out) refl in
            subst (IsCompleted p c t.current_phase) (sym moved) (record {
              cursor = refl;
              shared_cursor = refl;
              parity = ground arith;
              phase_of = phase.1 ∙ ap (λ (x : ℕ). x % 2 == 1) pass;
              grows = omega arith;
            })
        | inr waiting ↦
            let target = completed-pass_index s (pass_index c + 1) o (omega arith) in
            let moved : core t ≡ lowered_core (completed_gen s (pass_index c + 1)) c =
              result
              ∙ chosen _ _ _ false _ _ c mapped known.0 (rw index waiting)
                  (rw (index, next) refl) in
            let above : s.exposure_gen < pass_index c * (s.chunks + 1) + (s.chunks + 1) =
              lt-div-mul-add (omega arith) in
            let pass : repaired_pass s (pass_of s s.exposure_gen) ≡ pass_index c + 1 =
              rw (known.0, index, waiting) next in
            subst (IsCompleted p c t.current_phase) (sym moved) (record {
              cursor = refl;
              shared_cursor = refl;
              parity = rw target.0 (odd_next (pass_index c) p known.2 waiting);
              phase_of = phase.1 ∙ ap (λ (x : ℕ). x % 2 == 1) (pass ∙ sym target.0);
              grows = omega (arith, target.1, above);
            })
      ]),
    )
