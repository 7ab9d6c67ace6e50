-- ===== src/Seqlock/Consistent.antt =====
-- src/core/directory.hpp and src/core/directory.cpp: what an accepted attempt has copied.
use cyclone_cache.Common.{
  ℕ, suc, ◌+◌, ◌%◌, ◌^◌, ◌<◌, ◌≤◌, ◌≡◌, refl, sym, ◌∙◌, ap, ◌⊎◌, inl, inr, subst, List, [], ◌∷◌,
  ◌++◌, take, get_elem?, set, length, some, arith,
}
use cyclone_cache.Directory.Entry.{DirEntry}
use cyclone_cache.Seqlock.Protocol.{
  Reader, idle, copying, accepted, World, Step, begin_bucket_write, store_entry, end_bucket_write,
  load_version, copy_entry, accept, give_up, Reach, at_start, then_step,
}

-- The worlds that a run passes through, its first and its last included.
pub Visits : (start w : World) → Reach start w → World → Type 0
Visits start w at_start m = m ≡ start
Visits start w (then_step x w' run step) m = (m ≡ w) ⊎ Visits start x run m

-- The bucket stood like this, with no write in progress, at some moment of the run.
pub record Stood (start w : World) (run : Reach start w) (bucket : List DirEntry) : Type 0 where
  pub moment : World
  pub visited : Visits start w run moment
  pub no_write : moment.bumps % 2 ≡ 0
  pub same : moment.bucket ≡ bucket

-- `stood` says that what the reader saw at its load stood so.
Inv : World → Type 0 → World → Reader → Type 0
Inv start stood w idle = Unit
Inv start stood w (copying v es) =
    (v ≡ w.seen_bumps % 2 ^ 32)
    × (start.bumps ≤ w.seen_bumps)
    × (w.seen_bumps ≤ w.bumps)
    × (w.seen_bumps % 2 ≡ 0)
    × (w.bumps ≡ w.seen_bumps → (w.bucket ≡ w.seen) × (es ≡ take (length es) w.seen))
    × stood
Inv start stood w (accepted es) = (es ≡ take (length es) w.seen) × stood

Inv-later :
    (start : World) (stood stood' : Type 0) (w : World) (r : Reader)
    → (stood → stood')
    → Inv start stood w r
    → Inv start stood' w r
unfolding Inv
Inv-later start stood stood' w idle later inv = tt
Inv-later start stood stood' w (copying v es) later inv =
    (inv.0, inv.1, inv.2, inv.3, inv.4, later inv.5)
Inv-later start stood stood' w (accepted es) later inv = (inv.0, later inv.1)

take-snoc :
    {A : Type 0} (xs es : List A) (e : A)
    → es ≡ take (length es) xs
    → get_elem? xs (length es) ≡ some e
    → es ++ e ∷ [] ≡ take (length (es ++ e ∷ [])) xs
take-snoc [] [] e prefix next = cc
take-snoc (x ∷ xs) [] e prefix next = cc
take-snoc [] (a ∷ es) e prefix next = cc
take-snoc (x ∷ xs) (a ∷ es) e prefix next =
    let rest : es ≡ take (length es) xs = cc in let longer = take-snoc xs es e rest next in cc

bump-Inv :
    (start : World) (stood : Type 0) (w : World) (r : Reader)
    → Inv start stood w r
    → Inv start stood (record w { bumps = suc w.bumps }) r
unfolding Inv
bump-Inv start stood w idle inv = tt
bump-Inv start stood w (copying v es) inv =
    (inv.0, inv.1, omega (arith, inv.2), inv.3, λ same. absurd (omega (arith, inv.2, same)), inv.5)
bump-Inv start stood w (accepted es) inv = inv

store-Inv :
    (start : World) (stood : Type 0) (w : World) (i : ℕ) (e : DirEntry) (r : Reader)
    → w.bumps % 2 ≡ 1
    → Inv start stood w r
    → Inv start stood (record w { bucket = set w.bucket i e }) r
unfolding Inv
store-Inv start stood w i e idle odd inv = tt
store-Inv start stood w i e (copying v es) odd inv =
    (inv.0, inv.1, inv.2, inv.3, λ same. absurd (omega (arith, inv.3, same, odd)), inv.5)
store-Inv start stood w i e (accepted es) odd inv = inv

Step-bumps : (w w' : World) → Step w w' → w.bumps ≤ w'.bumps
Step-bumps w w' (begin_bucket_write x even) = omega arith
Step-bumps w w' (store_entry x i e odd) = omega arith
Step-bumps w w' (end_bucket_write x odd) = omega arith
Step-bumps w w' (load_version x even) = omega arith
Step-bumps w w' (copy_entry x v es e r g) = omega arith
Step-bumps w w' (accept x v es r same) = omega arith
Step-bumps w w' (give_up x) = omega arith

Reach-bumps : (start w : World) → Reach start w → start.bumps ≤ w.bumps
Reach-bumps start w at_start = omega arith
Reach-bumps start w (then_step x w' reach step) =
    omega (arith, Reach-bumps start x reach, Step-bumps x w step)

-- What stood in a run still does when the run goes on.
Stood-later :
    (start w w' : World) (run : Reach start w) (step : Step w w') (bucket : List DirEntry)
    → Stood start w run bucket
    → Stood start w' (then_step w w' run step) bucket
unfolding Visits
Stood-later start w w' run step bucket s = record {
  moment = s.moment;
  visited = inr s.visited;
  no_write = s.no_write;
  same = s.same;
}

run_end : (start w : World) (run : Reach start w) → Visits start w run w
unfolding Visits
run_end start w at_start = refl
run_end start w (then_step x w' run step) = inl refl

-- A step keeps the invariant, from what stood in the run before it to what stands in the run with it.
Step-Inv :
    (start w w' : World) (stood stood' : Type 0)
    → Reach start w
    → Step w w'
    → w.bumps < start.bumps + 2 ^ 32
    → (w'.seen ≡ w.seen → stood → stood')
    → (w.bumps % 2 ≡ 0 → w'.seen ≡ w.bucket → stood')
    → Inv start stood w w.reader
    → Inv start stood' w' w'.reader
unfolding Inv
Step-Inv start w w' stood stood' run (begin_bucket_write x even) bound later now inv =
    bump-Inv start stood' w w.reader (Inv-later start stood stood' w w.reader (later refl) inv)
Step-Inv start w w' stood stood' run (store_entry x i e odd) bound later now inv =
    store-Inv start stood' w i e w.reader odd
      (Inv-later start stood stood' w w.reader (later refl) inv)
Step-Inv start w w' stood stood' run (end_bucket_write x odd) bound later now inv =
    bump-Inv start stood' w w.reader (Inv-later start stood stood' w w.reader (later refl) inv)
Step-Inv start w w' stood stood' run (load_version x even) bound later now inv = (
  refl,
  Reach-bumps start w run,
  omega arith,
  omega (arith, even),
  λ same. (refl, refl),
  now (omega (arith, even)) refl,
)
Step-Inv start w w' stood stood' run (copy_entry x v es e is next) bound later now inv =
    let at : Inv start stood w (copying v es) = subst (Inv start stood w) is inv in
    (
      at.0,
      at.1,
      at.2,
      at.3,
      λ same. (
        (at.4 same).0,
        take-snoc w.seen es e (at.4 same).1
            (sym (ap (λ b. get_elem? b (length es)) (at.4 same).0) ∙ next),
      ),
      later refl at.5,
    )
Step-Inv start w w' stood stood' run (accept x v es is same) bound later now inv =
    let at : Inv start stood w (copying v es) = subst (Inv start stood w) is inv in
    let still : w.bumps ≡ w.seen_bumps = omega (arith, at.0, at.1, at.2, same, bound) in
    ((at.4 still).1, later refl at.5)
Step-Inv start w w' stood stood' run (give_up x) bound later now inv = tt

Reach-Inv :
    (start w : World) (run : Reach start w)
    → start.reader ≡ idle
    → w.bumps < start.bumps + 2 ^ 32
    → Inv start (Stood start w run w.seen) w w.reader
unfolding Inv Visits
Reach-Inv start w at_start idle_at bound =
    subst (Inv start (Stood start w at_start w.seen) w) (sym idle_at) tt
Reach-Inv start w (then_step x w' run step) idle_at bound =
    let before : x.bumps < start.bumps + 2 ^ 32 = omega (arith, Step-bumps x w step, bound) in
    Step-Inv start x w (Stood start x run x.seen) (Stood start w (then_step x w run step) w.seen)
      run step before
      (λ same stood.
        Stood-later start x w run step w.seen (subst (Stood start x run) (sym same) stood))
      (λ even same. record {
        moment = x;
        visited = inr (run_end start x run);
        no_write = even;
        same = sym same;
      })
      (Reach-Inv start x run idle_at before)

-- However the writer's and the reader's steps mix in a run, the entries of an attempt that was accepted are
-- the first ones of the bucket as it stood, with no write in progress, at a moment that this run passes
-- through. The reader is idle at the start, and the version changes less than 2 ^ 32 times in the run.
pub accepted-Stood :
    (start w : World) (run : Reach start w) (es : List DirEntry)
    → start.reader ≡ idle
    → w.bumps < start.bumps + 2 ^ 32
    → w.reader ≡ accepted es
    → (es ≡ take (length es) w.seen) × Stood start w run w.seen
unfolding Inv
accepted-Stood start w run es idle_at bound done =
    subst (Inv start (Stood start w run w.seen) w) done (Reach-Inv start w run idle_at bound)
