-- ===== src/Volume/Walk.antt =====
-- src/core/volume.hpp: the hops of a walk along a chain of alternates.
use cyclone_cache.Common.{
  ℕ, zero, suc, ◌+◌, ◌<◌, ◌≤◌, ◌≡◌, refl, subst, Bool, true, false, not, ◌&&◌, ◌||◌, leb, ltb, ◌==◌,
  if◌then◌else◌, arith,
}
use cyclone_cache.Directory.Choose.{AdmitClass, is_reject}
use cyclone_cache.Volume.{Stripe, in_data_area}
use cyclone_cache.Volume.Admission.{StripeSnapshot, admit_hop, hop_class}

-- A walk of some hops, each admitted with the class of the one before it.
pub data Walk (s : Stripe) (snap : StripeSnapshot) : AdmitClass → ℕ → ℕ → ℕ → Type 0 where
  here : (cls : AdmitClass) (rel : ℕ) → Walk s snap cls rel zero rel
  hop :
      (cls : AdmitClass) (source target n last : ℕ)
      → is_reject (admit_hop s snap target source cls) ≡ false
      → Walk s snap (admit_hop s snap target source cls) target n last
      → Walk s snap cls source (suc n) last

-- The part of the stripe that a class stands for.
abbrev pub InRegion : Stripe → StripeSnapshot → AdmitClass → ℕ → Type 0
InRegion s snap AdmitClass.current rel = (in_data_area s rel ≡ true) × (rel < snap.cursor_rel)
InRegion s snap AdmitClass.retained rel = (in_data_area s rel ≡ true) × (snap.frontier_rel ≤ rel)
InRegion s snap AdmitClass.reject rel = Unit

admitted_if :
    (b : Bool) (cls : AdmitClass)
    → is_reject (if b then cls else AdmitClass.reject) ≡ false
    → b ≡ true
admitted_if true cls h = refl
admitted_if false cls h = absurd (ground arith)

rejected_if :
    (b : Bool) (cls : AdmitClass)
    → is_reject (if b then AdmitClass.reject else cls) ≡ false
    → b ≡ false
rejected_if true cls h = absurd (ground arith)
rejected_if false cls h = refl

hop_class_lem :
    (s : Stripe) (snap : StripeSnapshot) (target : ℕ) (cls : AdmitClass)
    → in_data_area s target ≡ true
    → is_reject (hop_class s snap target cls) ≡ false
    → (hop_class s snap target cls ≡ cls) × InRegion s snap cls target
unfolding hop_class
hop_class_lem s snap target AdmitClass.current inside ok =
    let low = admitted_if (ltb target snap.cursor_rel) AdmitClass.current ok in
    rw low (refl, (inside, ground arith))
hop_class_lem s snap target AdmitClass.retained inside ok =
    let clean = admitted_if (s.retain && leb snap.frontier_rel target) AdmitClass.retained ok in
    rw clean (refl, (inside, ground arith))
hop_class_lem s snap target AdmitClass.reject inside ok = absurd (ground arith)

-- An admitted hop goes strictly down, keeps the class and lands in its part of the data area.
pub admit_hop_lem :
    (s : Stripe) (snap : StripeSnapshot) (target source : ℕ) (cls : AdmitClass)
    → is_reject (admit_hop s snap target source cls) ≡ false
    → (target < source) × (admit_hop s snap target source cls ≡ cls) × InRegion s snap cls target
unfolding admit_hop
admit_hop_lem s snap target source cls ok =
    let test = target == 0 || (not (in_data_area s target) || leb source target) in
    let open' = rejected_if test (hop_class s snap target cls) ok in
    let inside : in_data_area s target ≡ true = ground arith in
    let down : target < source = ground arith in
    let ok' : is_reject (hop_class s snap target cls) ≡ false =
      subst
        (λ (b : Bool).
          is_reject (if b then AdmitClass.reject else hop_class s snap target cls) ≡ false)
        open' ok in
    let landed = hop_class_lem s snap target cls inside ok' in (down, rw open' landed.0, landed.1)

-- A walk of any number of hops ends: it is no longer than the offset that it starts from, each hop is
-- lower than the one before it, and the walk stays in the part of the stripe that it starts in.
pub Walk-bounded :
    (s : Stripe) (snap : StripeSnapshot) (cls : AdmitClass) (source n last : ℕ)
    → Walk s snap cls source n last
    → (last + n ≤ source) × (InRegion s snap cls source → InRegion s snap cls last)
Walk-bounded s snap cls source zero last (here c r) = (omega arith, λ inside. inside)
Walk-bounded s snap cls source (suc n) last (hop c source' target n' last' ok rest) =
    let one = admit_hop_lem s snap target source cls ok in
    let onward : Walk s snap cls target n last =
      subst (λ (c' : AdmitClass). Walk s snap c' target n last) one.1 rest in
    let further = Walk-bounded s snap cls target n last onward in
    (omega (arith, one.0, further.0), λ inside. further.1 one.2)
